-- ===== src/Split/Hash/Feed.antt =====
-- What one pass still has to do, and that the loop over a chunk does that part of it.
use layersmith.Prelude.{
  ℕ, zero, suc, ◌+◌, ◌-◌, ◌≤◌, ◌<◌, min, ◌≡◌, refl, sym, ap, ◌∙◌, ◌⊎◌, inl, inr, some, List, [],
  ◌∷◌, ◌++◌, arith, ◌==◌, nat_eq, All, Bool-cases, length, take, drop, append-nil, append_assoc,
  length-append, length-take, length-drop, take-append-drop, take_exact, drop_exact, concat,
}
use layersmith.Prelude.Text.{Str}
use layersmith.Split.Plan.{Range}
use layersmith.Split.Stream.{Bytes}
use layersmith.Split.Hash.{Part, Pass, part_of, close, absorb, feed, feed_all, Fed}
use layersmith.Prelude.Maybe.{>>=-eq-some}

abbrev pub sum_sizes : List Range → ℕ
sum_sizes [] = 0
sum_sizes (r ∷ rs) = r.size + sum_sizes rs

-- The bytes that a pass has room for
abbrev pub room : Pass → ℕ
room s = (s.current.size - s.filled) + sum_sizes s.later

-- A pass between two rounds of the loop: it is not at the end of a part that another follows.
pub record IsReady (s : Pass) : Type 0 where
  pub counted : s.filled ≡ length s.digest
  pub fits : s.filled ≤ s.current.size
  pub positive : All (λ r. 0 < r.size) s.later
  pub inside : (s.later ≡ []) ⊎ (s.filled < s.current.size)

-- The counts that `progress` is called with
abbrev pub running : ℕ → List Bytes → List ℕ
running done [] = []
running done (c ∷ cs) = (done + length c) ∷ running (done + length c) cs

module _ (sha256 : Bytes → Str) (archive : Str) (count : ℕ) where
  -- The parts that the ranges cut from the bytes
  abbrev pub cut : List Range → ℕ → Bytes → List Part
  cut [] i bytes = []
  cut (r ∷ rs) i bytes =
      part_of sha256 archive count i r r.size (take r.size bytes)
      ∷ cut rs (i + 1) (drop r.size bytes)

  -- The parts in the end, if `bytes` are what is still to come
  abbrev pub outcome : Pass → Bytes → List Part
  outcome s bytes = s.parts ++ cut (s.current ∷ s.later) s.index (s.digest ++ bytes)

  -- What stays true of a pass that is given `view`
  pub record Took (view : Bytes) (s t : Pass) : Type 0 where
    pub ready : IsReady t
    pub same_outcome : (bytes : Bytes) → outcome t bytes ≡ outcome s (view ++ bytes)
    pub less_room : room t + length view ≡ room s
    pub all_seen : t.whole ≡ s.whole ++ view

  close-IsReady :
      (s : Pass) (later : List Range)
      → s.later ≡ later
      → s.filled ≡ length s.digest
      → s.filled ≤ s.current.size
      → All (λ r. 0 < r.size) later
      → IsReady (close sha256 archive count s later)
  unfolding close
  close-IsReady s [] e counted fits positive = record {
    counted = counted;
    fits = fits;
    positive = rw e tt;
    inside = inl e;
  }
  close-IsReady s (next ∷ later) e counted fits positive =
      elim (Bool-cases (s.filled == s.current.size)) [
        | inl full ↦ rw full (record {
          counted = refl;
          fits = omega arith;
          positive = positive.1;
          inside = inr positive.0;
        })
        | inr part ↦ rw part (record {
          counted = counted;
          fits = fits;
          positive = rw e positive;
          inside = inr (ground arith);
        })
      ]

  outcome-close :
      (s : Pass) (later : List Range) (bytes : Bytes)
      → s.later ≡ later
      → s.filled ≡ length s.digest
      → outcome (close sha256 archive count s later) bytes ≡ outcome s bytes
  unfolding close
  outcome-close s [] bytes e counted = refl
  outcome-close s (next ∷ later) bytes e counted = elim (Bool-cases (s.filled == s.current.size)) [
    | inl full ↦
        let n : s.filled ≡ s.current.size = ground arith in
        let m : s.current.size ≡ length s.digest = sym n ∙ counted in
        rw full (
          rw
            (
              n,
              e,
              take_exact s.current.size s.digest bytes m,
              drop_exact s.current.size s.digest bytes m,
            )
            (rw append_assoc))
    | inr part ↦ rw part refl
  ]

  room-close :
      (s : Pass) (later : List Range)
      → s.later ≡ later
      → room (close sha256 archive count s later) ≡ room s
  unfolding close
  room-close s [] e = refl
  room-close s (next ∷ later) e = elim (Bool-cases (s.filled == s.current.size)) [
    | inl full ↦ let n : s.filled ≡ s.current.size = ground arith in rw (full, e) (omega arith)
    | inr part ↦ rw part refl
  ]

  close_whole :
      (s : Pass) (later : List Range) → (close sha256 archive count s later).whole ≡ s.whole
  unfolding close
  close_whole s [] = refl
  close_whole s (next ∷ later) = ground arith

  -- One round of `while view:`
  round_lem :
      (n : ℕ) (view : Bytes) (s : Pass)
      → n ≤ length view
      → n ≤ s.current.size - s.filled
      → IsReady s
      → let t = absorb sha256 archive count (take n view) s in
        Took (take n view) s (close sha256 archive count t t.later)
  round_lem n view s h k r =
      let piece : Bytes = take n view in
      let l : length piece ≡ n = omega (arith, length-take n view) in
      let t = absorb sha256 archive count piece s in
      let counted : s.filled + length piece ≡ length (s.digest ++ piece) =
        omega (arith, length-append s.digest piece, r.counted) in
      record {
        ready = close-IsReady t s.later refl counted (omega (arith, r.fits)) r.positive;
        same_outcome = λ bytes.
            outcome-close t s.later bytes refl counted
            ∙ ap (λ b. s.parts ++ cut (s.current ∷ s.later) s.index b)
                (append_assoc s.digest piece bytes);
        less_room = let same = room-close t s.later refl in omega (arith, r.fits);
        all_seen = close_whole t s.later;
      }

  -- With room left, the next piece is not empty.
  moves :
      (s : Pass) (n : ℕ) → 0 < n → n ≤ room s → IsReady s → 0 < min n (s.current.size - s.filled)
  moves s n h k r = elim r.inside [
    | inl last ↦ let e : sum_sizes s.later ≡ 0 = rw last refl in omega arith
    | inr part ↦ omega arith
  ]

  Took-trans :
      (n : ℕ) (view : Bytes) {s t u : Pass}
      → Took (take n view) s t
      → Took (drop n view) t u
      → Took view s u
  Took-trans n view {s} {t} {u} a b =
      let whole = take-append-drop n view in
      record {
        ready = b.ready;
        same_outcome = λ bytes.
            b.same_outcome bytes
            ∙ a.same_outcome (drop n view ++ bytes)
            ∙ ap (λ v. outcome s v)
                (sym (append_assoc (take n view) (drop n view) bytes) ∙ ap (λ v. v ++ bytes) whole);
        less_room = omega (
          arith,
          a.less_room,
          b.less_room,
          length-append (take n view) (drop n view),
          ap length whole,
        );
        all_seen =
            b.all_seen
            ∙ ap (λ v. v ++ drop n view) a.all_seen
            ∙ append_assoc s.whole (take n view) (drop n view)
            ∙ ap (λ v. s.whole ++ v) whole;
      }

  -- The loop over a view that there is room for ends within one round for each of its bytes.
  pub feed_lem :
      (fuel : ℕ) (view : Bytes) (s : Pass)
      → length view ≤ fuel
      → length view ≤ room s
      → IsReady s
      → (t : Pass) × (feed sha256 archive count fuel view s ≡ some t) × Took view s t
  unfolding feed
  feed_lem fuel [] s h k r = (
    s,
    refl,
    record {
      ready = r;
      same_outcome = λ bytes. refl;
      less_room = omega arith;
      all_seen = sym (append-nil s.whole);
    },
  )
  feed_lem zero (b ∷ view) s h k r = elim h [ ]
  feed_lem (suc fuel) (b ∷ view) s h k r =
      let all : Bytes = b ∷ view in
      let n : ℕ = min (length all) (s.current.size - s.filled) in
      let pos : 0 < n = moves s (length all) (omega arith) k r in
      let first = round_lem n all s (omega arith) (omega arith) r in
      let t = absorb sha256 archive count (take n all) s in
      let t' = close sha256 archive count t t.later in
      let l = length-take n all in
      let l' = length-drop n all in
      let more =
        feed_lem fuel (drop n all) t' (omega arith) (omega (arith, first.less_room)) first.ready in
      (more.0, more.1, Took-trans n all first more.2)

  -- Whatever the fuel, a loop that ends has taken the whole view.
  pub feed-Took :
      (fuel : ℕ) (view : Bytes) (s t : Pass)
      → feed sha256 archive count fuel view s ≡ some t
      → IsReady s
      → Took view s t
  unfolding feed
  feed-Took fuel [] s t e r =
      let e' : s ≡ t = cc in
      rw (← e') (record {
        ready = r;
        same_outcome = λ bytes. refl;
        less_room = omega arith;
        all_seen = sym (append-nil s.whole);
      })
  feed-Took zero (b ∷ view) s t e r = cc
  feed-Took (suc fuel) (b ∷ view) s t e r =
      let all : Bytes = b ∷ view in
      let n : ℕ = min (length all) (s.current.size - s.filled) in
      let first = round_lem n all s (omega arith) (omega arith) r in
      Took-trans n all first (feed-Took fuel (drop n all) _ t e first.ready)

  pub Took-append : (a b : Bytes) {s t u : Pass} → Took a s t → Took b t u → Took (a ++ b) s u
  Took-append a b {s} {t} {u} x y =
      Took-trans (length a) (a ++ b) {s = s} {t = t} {u = u} (rw (take_exact (length a) a b refl) x)
        (rw (drop_exact (length a) a b refl) y)

  -- The same of the loop over the chunks.
  pub feed_all-Took :
      (fuel : Bytes → ℕ) (chunks : List Bytes) (done : ℕ) (s : Pass) (f : Fed)
      → feed_all sha256 archive count fuel chunks done s ≡ some f
      → IsReady s
      → Took (concat chunks) s f.pass
        × (f.done ≡ done + length (concat chunks))
        × (f.reports ≡ running done chunks)
  unfolding feed_all
  feed_all-Took fuel [] done s f e r =
      let e' : s ≡ f.pass = ground arith in
      (
        rw (← e') (record {
          ready = r;
          same_outcome = λ bytes. refl;
          less_room = omega arith;
          all_seen = sym (append-nil s.whole);
        }),
        ground arith,
        ground arith,
      )
  feed_all-Took fuel (c ∷ cs) done s f e r =
      let (u, first, rest) = >>=-eq-some (feed sha256 archive count (fuel c) c s) _ e in
      let (g, more, same) =
        >>=-eq-some (feed_all sha256 archive count fuel cs (done + length c) u) _ rest in
      let a = feed-Took (fuel c) c s u first r in
      let (b, done_eq, reports_eq) = feed_all-Took fuel cs (done + length c) u g more a.ready in
      let p : g.pass ≡ f.pass = cc in
      let l = length-append c (concat cs) in
      let d : g.done ≡ f.done = cc in (rw (← p) (Took-append c (concat cs) a b), omega arith, cc)

  -- Enough fuel and room: the loop over the chunks ends.
  pub feed_all_ends :
      (chunks : List Bytes) (done : ℕ) (s : Pass)
      → length (concat chunks) ≤ room s
      → IsReady s
      → (f : Fed) × (feed_all sha256 archive count (λ c. length c) chunks done s ≡ some f)
  unfolding feed_all
  feed_all_ends [] done s k r = (record { done = done; reports = []; pass = s }, refl)
  feed_all_ends (c ∷ cs) done s k r =
      let l = length-append c (concat cs) in
      let (t, e, first) = feed_lem (length c) c s (omega arith) (omega arith) r in
      let (f, more) =
        feed_all_ends cs (done + length c) t (omega (arith, first.less_room)) first.ready in
      (record f { reports = (done + length c) ∷ f.reports }, rw (e, more) refl)
