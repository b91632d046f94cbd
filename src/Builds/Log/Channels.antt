-- ===== src/Builds/Log/Channels.antt =====
-- Who gets which messages of the log bus.
use layersmith.Prelude.{
  ℕ, ◌+◌, ◌≤◌, ◌<◌, ◌≡◌, ◌≢◌, refl, sym, subst, ◌∙◌, true, false, List, [], ◌∷◌, ◌++◌, ltb, arith,
  inl, inr, Bool-cases, All, length, length-append, if◌then◌else◌, ltb→lt, ◌==◌, ==_iff, ==_apart,
  nat_eq, list_eq, contains,
}
use layersmith.Prelude.Text.{Str}
use layersmith.Builds.Log.{
  LogBus, Message, channels_of, subscribe, remove, put_or_pop, unsubscribe, put_nowait, put_all,
  publish, queue_size,
}

abbrev pub Distinct : List ℕ → Type 0
Distinct [] = Unit
Distinct (x ∷ xs) = (contains xs x ≡ false) × Distinct xs

-- The channels of a build are distinct and were all handed out, and no queue is longer than it may be.
pub record IsSound (bus : LogBus) : Type 0 where
  pub distinct : (build_id : Str) → Distinct (channels_of (bus.subscribers build_id))
  pub known : (build_id : Str) → All (λ c. c < bus.next) (channels_of (bus.subscribers build_id))
  pub bounded : (c : ℕ) → length (bus.queues c) ≤ queue_size

contains-below : (n : ℕ) (xs : List ℕ) → All (λ c. c < n) xs → contains xs n ≡ false
contains-below n [] h = refl
contains-below n (x ∷ xs) (below, rest) =
    let differs : (n == x) ≡ false = ground arith in rw differs (contains-below n xs rest)

contains-snoc :
    (xs : List ℕ) (n x : ℕ) → x ≢ n → contains xs x ≡ false → contains (xs ++ (n ∷ [])) x ≡ false
contains-snoc [] n x ne h = rw (==_apart x n ne) refl
contains-snoc (y ∷ xs) n x ne h = elim (Bool-cases (x == y)) [
  | inl same ↦ absurd (truth (rw same at h))
  | inr differ ↦ rw differ (contains-snoc xs n x ne (rw differ at h))
]
  where
    truth : true ≢ false
    truth e = cc

Distinct-snoc :
    (xs : List ℕ) (n : ℕ) → Distinct xs → All (λ c. c < n) xs → Distinct (xs ++ (n ∷ []))
Distinct-snoc [] n d a = (refl, tt)
Distinct-snoc (x ∷ xs) n (new, d) (below, a) =
    (contains-snoc xs n x (λ e. absurd (omega (arith, e, below))) new, Distinct-snoc xs n d a)

All-snoc : (xs : List ℕ) (n : ℕ) → All (λ c. c < n) xs → All (λ c. c < n + 1) (xs ++ (n ∷ []))
All-snoc [] n a = (omega arith, tt)
All-snoc (x ∷ xs) n (below, a) = (omega (arith, below), All-snoc xs n a)

contains-remove : (xs : List ℕ) (c x : ℕ) → contains xs x ≡ false → contains (remove xs c) x ≡ false
contains-remove [] c x h = refl
contains-remove (y ∷ xs) c x h = elim (Bool-cases (x == y)) [
  | inl same ↦ absurd (truth (rw same at h))
  | inr differ ↦
      let later : contains xs x ≡ false = rw differ at h in
      elim (Bool-cases (y == c)) [
        | inl here ↦ rw here later
        | inr there ↦ rw there (rw differ (contains-remove xs c x later))
      ]
]
  where
    truth : true ≢ false
    truth e = cc

Distinct-remove : (xs : List ℕ) (c : ℕ) → Distinct xs → Distinct (remove xs c)
Distinct-remove [] c d = tt
Distinct-remove (y ∷ xs) c (new, d) = elim (Bool-cases (y == c)) [
  | inl here ↦ rw here d
  | inr there ↦ rw there (contains-remove xs c y new, Distinct-remove xs c d)
]

All-remove : (n : ℕ) (xs : List ℕ) (c : ℕ) → All (λ c. c < n) xs → All (λ c. c < n) (remove xs c)
All-remove n [] c a = tt
All-remove n (y ∷ xs) c (below, a) = elim (Bool-cases (y == c)) [
  | inl here ↦ rw here a
  | inr there ↦ rw there (below, All-remove n xs c a)
]

subscribe-IsSound :
    (bus : LogBus) (build_id : Str) → IsSound bus → IsSound (subscribe bus build_id).0
unfolding subscribe
subscribe-IsSound bus build_id s = record {
  distinct = λ id. elim (Bool-cases (id == build_id)) [
    | inl same ↦ rw same (
        Distinct-snoc (channels_of (bus.subscribers build_id)) bus.next (s.distinct build_id)
          (s.known build_id))
    | inr differ ↦ rw differ (s.distinct id)
  ];
  known = λ id. elim (Bool-cases (id == build_id)) [
    | inl same ↦
        rw same (All-snoc (channels_of (bus.subscribers build_id)) bus.next (s.known build_id))
    | inr differ ↦ rw differ (weaken bus.next (channels_of (bus.subscribers id)) (s.known id))
  ];
  bounded = λ c. elim (Bool-cases (c == bus.next)) [
    | inl same ↦ rw same (omega arith)
    | inr differ ↦ rw differ (s.bounded c)
  ];
}
  where
    weaken : (n : ℕ) (xs : List ℕ) → All (λ c. c < n) xs → All (λ c. c < n + 1) xs
    weaken n [] a = tt
    weaken n (x ∷ xs) (below, a) = (omega (arith, below), weaken n xs a)

put_or_pop-IsSound :
    (bus : LogBus) (build_id : Str) (cs : List ℕ)
    → IsSound bus
    → Distinct cs
    → All (λ c. c < bus.next) cs
    → IsSound (put_or_pop bus build_id cs)
put_or_pop-IsSound bus build_id [] s d a = record {
  distinct = λ id. elim (Bool-cases (id == build_id)) [
    | inl same ↦ rw same tt
    | inr differ ↦ rw differ (s.distinct id)
  ];
  known = λ id. elim (Bool-cases (id == build_id)) [
    | inl same ↦ rw same tt
    | inr differ ↦ rw differ (s.known id)
  ];
  bounded = s.bounded;
}
put_or_pop-IsSound bus build_id (c ∷ cs) s d a = record {
  distinct = λ id. elim (Bool-cases (id == build_id)) [
    | inl same ↦ rw same d
    | inr differ ↦ rw differ (s.distinct id)
  ];
  known = λ id. elim (Bool-cases (id == build_id)) [
    | inl same ↦ rw same a
    | inr differ ↦ rw differ (s.known id)
  ];
  bounded = s.bounded;
}

-- What a channel holds after it was offered a message
abbrev pub offered : Message → List Message → List Message
offered message queue = if ltb (length queue) queue_size then queue ++ (message ∷ []) else queue

put_all_lem :
    (m : Message) (queues : ℕ → List Message) (cs : List ℕ) (c : ℕ)
    → Distinct cs
    → put_all m queues cs c ≡ (if contains cs c then offered m (queues c) else queues c)
unfolding put_all
put_all_lem m queues [] c d = refl
put_all_lem m queues (x ∷ cs) c (new, d) =
    let rest = put_all_lem m (put_nowait m queues x) cs c d in
    elim (Bool-cases (c == x)) [
      | inl same ↦
          let unseen : contains cs c ≡ false =
            subst (λ y. contains cs y ≡ false) (sym ((==_iff c x).0 same)) new in
          rest ∙ rw (same, unseen) refl
      | inr differ ↦ rest ∙ rw differ refl
    ]

offered-bounded :
    (m : Message) (q : List Message) → length q ≤ queue_size → length (offered m q) ≤ queue_size
offered-bounded m q h = elim (Bool-cases (ltb (length q) queue_size)) [
  | inl room ↦ rw room (omega (arith, length-append q (m ∷ []), ltb→lt (length q) queue_size room))
  | inr full ↦ rw full h
]

publish_queues :
    (bus : LogBus) (build_id : Str) (m : Message) (c : ℕ)
    → IsSound bus
    → (publish bus build_id m).queues c ≡ (
        if contains (channels_of (bus.subscribers build_id)) c
        then offered m (bus.queues c)
        else bus.queues c)
unfolding publish
publish_queues bus build_id m c s =
    put_all_lem m bus.queues (channels_of (bus.subscribers build_id)) c (s.distinct build_id)

publish-IsSound :
    (bus : LogBus) (build_id : Str) (m : Message) → IsSound bus → IsSound (publish bus build_id m)
unfolding publish
publish-IsSound bus build_id m s = record {
  distinct = s.distinct;
  known = s.known;
  bounded = λ c.
      rw (publish_queues bus build_id m c s)
        (elim (Bool-cases (contains (channels_of (bus.subscribers build_id)) c)) [
          | inl in_it ↦ rw in_it (offered-bounded m (bus.queues c) (s.bounded c))
          | inr out ↦ rw out (s.bounded c)
        ]);
}

-- On a sound bus a published message goes to the end of the queue of each channel of that build, once,
-- unless that queue is full, and every other queue stays as it is. Publishing keeps the bus sound,
-- as do subscribing and unsubscribing.
pub publish_lem :
    (bus : LogBus) (build_id : Str)
    → IsSound bus
    → ((m : Message) (c : ℕ)
        → (publish bus build_id m).queues c ≡ (
            if contains (channels_of (bus.subscribers build_id)) c
            then offered m (bus.queues c)
            else bus.queues c))
      × ((m : Message) → IsSound (publish bus build_id m))
      × IsSound (subscribe bus build_id).0
      × ((channel : ℕ) → IsSound (unsubscribe bus build_id channel))
unfolding unsubscribe
publish_lem bus build_id s =
    let cs = channels_of (bus.subscribers build_id) in
    (
      (λ m c. publish_queues bus build_id m c s),
      (λ m. publish-IsSound bus build_id m s),
      subscribe-IsSound bus build_id s,
      λ channel.
          put_or_pop-IsSound bus build_id (remove cs channel) s
            (Distinct-remove cs channel (s.distinct build_id))
            (All-remove bus.next cs channel (s.known build_id)),
    )
