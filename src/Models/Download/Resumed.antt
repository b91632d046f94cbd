-- ===== src/Models/Download/Resumed.antt =====
-- Attempts that are broken off and taken up again put the file together.
use layersmith.Prelude.{
  ℕ, ◌+◌, ◌≤◌, ◌<◌, ◌≡◌, ◌≢◌, refl, sym, ap, subst, ◌∙◌, ◌⊎◌, inl, inr, true, false, Option, none,
  some, List, [], ◌∷◌, ◌++◌, arith, Bool-cases, append-nil, append_assoc, ltb, ◌==◌, ==_iff,
  ==_apart, nat_eq, length, length-append, drop,
}
use layersmith.Prelude.Result.{Result, ok, err}
use layersmith.Prelude.Text.{Str}
use layersmith.Split.Stream.{Bytes}
use layersmith.Split.Manifest.{File}
use layersmith.Models.Download.{
  Turn, cancel, received, broken, Response, Answer, write_turns, have_of, unless_larger, held_at,
  respond, fetch,
}

-- The turns give bytes of `rest` in order, and may stop anywhere.
abbrev Gives : Bytes → List Turn → Type 0
Gives rest [] = Unit
Gives rest (cancel ∷ turns) = Unit
Gives rest (broken reason ∷ turns) = Unit
Gives rest (received chunk ∷ turns) = (later : Bytes) × (chunk ++ later ≡ rest) × Gives later turns

-- The turns give all bytes of `rest`, none of the chunks being empty.
abbrev pub GivesAll : Bytes → List Turn → Type 0
GivesAll rest [] = rest ≡ []
GivesAll rest (cancel ∷ turns) = ⊥
GivesAll rest (broken reason ∷ turns) = ⊥
GivesAll rest (received [] ∷ turns) = ⊥
GivesAll rest (received (b ∷ chunk) ∷ turns) =
    (later : Bytes) × ((b ∷ chunk) ++ later ≡ rest) × GivesAll later turns

-- The file is a beginning of the content, or not there.
abbrev pub IsPart : Bytes → Option File → Type 0
IsPart content none = Unit
IsPart content (some f) = (rest : Bytes) × (f.bytes ++ rest ≡ content)

-- An answer of the server of this content: an error, the part that was asked for, or the whole
abbrev Says : (Bytes → List Turn → Type 0) → Bytes → ℕ → Response → Type 0
Says P content from r =
    ((r.status ≡ 206) × P (drop from content) r.turns) ⊎ ((r.status ≢ 206) × P content r.turns)

abbrev MaySay : Bytes → ℕ → Result Str Response → Type 0
MaySay content from (err reason) = Unit
MaySay content from (ok r) = Says Gives content from r

abbrev Honest : Bytes → Answer → Type 0
Honest content answer = (from : ℕ) → MaySay content from (answer from)

abbrev pub Serves : Bytes → Answer → Type 0
Serves content answer =
    (from : ℕ) → (r : Response) × (answer from ≡ ok r) × Says GivesAll content from r

drop_part : (a b c : Bytes) → a ++ b ≡ c → drop (length a) c ≡ b
drop_part [] b c e = sym e
drop_part (x ∷ a) b [] e = cc
drop_part (x ∷ a) b (y ∷ c) e = drop_part a b c cc

length_part : (a b c : Bytes) → a ++ b ≡ c → length a ≤ length c
length_part a b c e = let n = length-append a b in subst (λ l. length a ≤ length l) e (omega arith)

-- A beginning that is as long as the whole
whole_part : (a b c : Bytes) → a ++ b ≡ c → length a ≡ length c → a ≡ c
whole_part a [] c e n = sym (append-nil a) ∙ e
whole_part a (x ∷ b) c e n =
    let more : length a + length (x ∷ b) ≡ length c = sym (length-append a (x ∷ b)) ∙ ap length e in
    absurd (omega arith)

module _ (content : Bytes) where
  write_turns-Gives :
      (held rest : Bytes) (turns : List Turn)
      → held ++ rest ≡ content
      → Gives rest turns
      → (later : Bytes) × ((write_turns (length content) held turns).1 ++ later ≡ content)
  unfolding write_turns
  write_turns-Gives held rest [] e g = (rest, e)
  write_turns-Gives held rest (cancel ∷ turns) e g = (rest, e)
  write_turns-Gives held rest (broken reason ∷ turns) e g = (rest, e)
  write_turns-Gives held rest (received [] ∷ turns) e g = (rest, e)
  write_turns-Gives held rest (received (b ∷ chunk) ∷ turns) e (later, cut, g) =
      let joined = append_assoc held (b ∷ chunk) later ∙ ap (λ l. held ++ l) cut ∙ e in
      elim (Bool-cases (ltb (length content) (length (held ++ (b ∷ chunk))))) [
        | inl over ↦ rw over (later, joined)
        | inr fits ↦ rw fits (write_turns-Gives (held ++ (b ∷ chunk)) later turns joined g)
      ]

  write_turns-GivesAll :
      (held rest : Bytes) (turns : List Turn)
      → held ++ rest ≡ content
      → GivesAll rest turns
      → write_turns (length content) held turns ≡ (ok tt, content)
  unfolding write_turns
  write_turns-GivesAll held rest [] e g =
      let same : held ≡ content = sym (append-nil held) ∙ ap (λ l. held ++ l) (sym g) ∙ e in
      let full : (length held == length content) ≡ true =
        (==_iff (length held) (length content)).1 (ap length same) in
      rw full (ap (λ b. (ok tt, b)) same)
  write_turns-GivesAll held rest (cancel ∷ turns) e g = elim g [ ]
  write_turns-GivesAll held rest (broken reason ∷ turns) e g = elim g [ ]
  write_turns-GivesAll held rest (received [] ∷ turns) e g = elim g [ ]
  write_turns-GivesAll held rest (received (b ∷ chunk) ∷ turns) e (later, cut, g) =
      let joined = append_assoc held (b ∷ chunk) later ∙ ap (λ l. held ++ l) cut ∙ e in
      let le = length_part (held ++ (b ∷ chunk)) later content joined in
      let fits : ltb (length content) (length (held ++ (b ∷ chunk))) ≡ false = ground arith in
      rw fits (write_turns-GivesAll (held ++ (b ∷ chunk)) later turns joined g)

  -- The bytes that an answer goes on from, and those that it sends
  held_at_lem :
      (P : Bytes → List Turn → Type 0) (kept : Option File) (r : Response)
      → IsPart content kept
      → Says P content (have_of kept) r
      → (rest : Bytes) × (held_at kept r.status ++ rest ≡ content) × P rest r.turns
  held_at_lem P none r part (inl (partial, p)) = (content, refl, p)
  held_at_lem P none r part (inr (whole, p)) = (content, refl, p)
  held_at_lem P (some f) r (rest, e) (inl (partial, p)) =
      let yes : (r.status == 206) ≡ true = (==_iff r.status 206).1 partial in
      rw yes (rest, e, subst (λ l. P l r.turns) (drop_part f.bytes rest content e) p)
  held_at_lem P (some f) r part (inr (whole, p)) =
      let no : (r.status == 206) ≡ false = ==_apart r.status 206 whole in rw no (content, refl, p)

  unless_larger_lem :
      (target : Option File)
      → IsPart content target
      → unless_larger (length content) target ≡ target
  unless_larger_lem none part = let no : ltb (length content) 0 ≡ false = ground arith in rw no refl
  unless_larger_lem (some f) (rest, e) =
      let le = length_part f.bytes rest content e in
      let no : ltb (length content) (length f.bytes) ≡ false = ground arith in rw no refl

  module _ (mtime_ns : ℕ) where
    respond-IsPart :
        (kept : Option File) (answer : Result Str Response)
        → IsPart content kept
        → MaySay content (have_of kept) answer
        → IsPart content (respond mtime_ns (length content) kept answer).1
    respond-IsPart kept (err reason) part says = part
    respond-IsPart kept (ok r) part says =
        let (rest, e, g) = held_at_lem Gives kept r part says in
        write_turns-Gives (held_at kept r.status) rest r.turns e g

    -- However an attempt ends, the file stays a beginning of the content.
    fetch-IsPart :
        (target : Option File) (answer : Answer)
        → IsPart content target
        → Honest content answer
        → IsPart content (fetch mtime_ns (length content) target answer).1
    unfolding fetch
    fetch-IsPart target answer part honest =
        rw (unless_larger_lem target part) (elim (Bool-cases (have_of target == length content)) [
          | inl full ↦ rw full part
          | inr short ↦
              rw short
                (respond-IsPart target (answer (have_of target)) part (honest (have_of target)))
        ])

    -- The file after a number of attempts
    abbrev after_attempts : Option File → List Answer → Option File
    after_attempts target [] = target
    after_attempts target (answer ∷ answers) =
        after_attempts (fetch mtime_ns (length content) target answer).1 answers

    abbrev AllHonest : List Answer → Type 0
    AllHonest [] = Unit
    AllHonest (answer ∷ answers) = Honest content answer × AllHonest answers

    after_attempts-IsPart :
        (target : Option File) (answers : List Answer)
        → IsPart content target
        → AllHonest answers
        → IsPart content (after_attempts target answers)
    after_attempts-IsPart target [] part h = part
    after_attempts-IsPart target (answer ∷ answers) part (honest, h) =
        after_attempts-IsPart (fetch mtime_ns (length content) target answer).1 answers
          (fetch-IsPart target answer part honest) h

    respond-whole :
        (kept : Option File) (answer : Answer)
        → IsPart content kept
        → Serves content answer
        → (f : File) × (respond mtime_ns (length content) kept (answer (have_of kept))
            ≡ (ok tt, some f))
          × (f.bytes ≡ content)
    respond-whole kept answer part serves =
        let (r, e, says) = serves (have_of kept) in
        let (rest, joined, g) = held_at_lem GivesAll kept r part says in
        rw (e, write_turns-GivesAll (held_at kept r.status) rest r.turns joined g)
          (record { bytes = content; mtime_ns = mtime_ns }, refl, refl)

    full_file :
        (target : Option File)
        → 0 < length content
        → IsPart content target
        → have_of target ≡ length content
        → (f : File) × (target ≡ some f) × (f.bytes ≡ content)
    full_file none pos part e = absurd (omega arith)
    full_file (some f) pos (rest, joined) e = (f, refl, whole_part f.bytes rest content joined e)

    -- Of a file that is not empty and of which a beginning is there, an attempt in which the server sends
    -- all that it is asked for gets the rest.
    pub fetch-whole :
        (target : Option File) (answer : Answer)
        → 0 < length content
        → IsPart content target
        → Serves content answer
        → (f : File) × (fetch mtime_ns (length content) target answer ≡ (ok tt, some f))
          × (f.bytes ≡ content)
    unfolding fetch
    fetch-whole target answer pos part serves =
        rw (unless_larger_lem target part) (elim (Bool-cases (have_of target == length content)) [
          | inl full ↦
              rw full (
                let (f, e, b) = full_file target pos part ((==_iff _ _).0 full) in
                rw e (f, refl, b))
          | inr short ↦ rw short (respond-whole target answer part serves)
        ])

    -- A file that is not empty, of which any number of attempts got parts, from a server that sends
    -- bytes of that file, in answer to a range or from the start, broken off anywhere: an attempt in
    -- which the server sends all that it is asked for returns, and the file is then whole.
    pub fetch-after_attempts :
        (answers : List Answer) (answer : Answer)
        → 0 < length content
        → AllHonest answers
        → Serves content answer
        → (f : File) × (fetch mtime_ns (length content) (after_attempts none answers) answer
            ≡ (ok tt, some f))
          × (f.bytes ≡ content)
    fetch-after_attempts answers answer pos honest serves =
        fetch-whole (after_attempts none answers) answer pos
          (after_attempts-IsPart none answers tt honest) serves
