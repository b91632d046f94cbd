-- ===== src/Builds/Log/File.antt =====
-- The log file of a build after any number of lines.
use layersmith.Prelude.{
  ℕ, ◌≤◌, ◌<◌, ◌≡◌, refl, sym, ap, subst, ◌∙◌, Bool, true, false, Option, none, some, List, [], ◌∷◌,
  ◌++◌, ltb, arith, inl, inr, ◌⊎◌, Bool-cases, length, length-append, append_assoc, append-nil,
  if◌then◌else◌, ltb→lt,
}
use layersmith.Split.Stream.{Bytes}
use layersmith.Builds.Log.{write_line, LogBus, emit, max_log_bytes, marker}
use layersmith.Prelude.{==_iff, ==_apart, ◌==◌, nat_eq, list_eq, ◌≢◌}
use layersmith.Prelude.Text.{Str}
use layersmith.Prelude.Map.{Map}

-- The lines, each with its end
abbrev pub joined : List Bytes → Bytes
joined [] = []
joined (l ∷ ls) = (l ++ (10 ∷ [])) ++ joined ls

module _ (limit : ℕ) (mark : Bytes) where
  unfoldable write_lines : Option Bytes → List Bytes → Option Bytes
  unfolding write_line
  write_lines file [] = file
  write_lines file (l ∷ ls) = write_lines (write_line limit mark file l) ls

  -- The file is over the limit: nothing is written to it.
  write_lines-full :
      (b : Bytes) (ls : List Bytes) → limit < length b → write_lines (some b) ls ≡ some b
  unfolding write_lines
  write_lines-full b [] h = refl
  write_lines-full b (l ∷ ls) h =
      let over : ltb limit (length b) ≡ true = ground arith in rw over (write_lines-full b ls h)

  -- What `before` and the lines come to: all of them, or as many as it takes to get over the limit and the marker.
  abbrev Written : Bytes → List Bytes → Bytes → Type 0
  Written before ls file =
      ((file ≡ before ++ joined ls) × (length file ≤ limit))
      ⊎ ((first : List Bytes) × (last : Bytes) × (rest : List Bytes) × (ls ≡ first ++ (last ∷ rest))
          × (length (before ++ joined first) ≤ limit)
          × (limit < length (before ++ joined (first ++ (last ∷ []))))
          × (file ≡ (before ++ joined (first ++ (last ∷ []))) ++ mark))

  write_lines-Written :
      (before : Bytes) (ls : List Bytes)
      → length before ≤ limit
      → (file : Bytes) × (write_lines (some before) ls ≡ some file) × Written before ls file
  unfolding write_lines
  write_lines-Written before [] h = (before, refl, inl (sym (append-nil before), h))
  write_lines-Written before (l ∷ ls) h =
      let longer = before ++ (l ++ (10 ∷ [])) in
      let opened : ltb limit (length before) ≡ false = ground arith in
      elim (Bool-cases (ltb limit (length longer))) [
        | inl over ↦
            let past : limit < length longer = ltb→lt limit (length longer) over in
            let still : limit < length (longer ++ mark) =
              omega (arith, length-append longer mark) in
            let all : before ++ joined (l ∷ []) ≡ longer =
              ap (λ x. before ++ x) (append-nil (l ++ (10 ∷ []))) in
            (
              longer ++ mark,
              rw (opened, over) (write_lines-full (longer ++ mark) ls still),
              inr ([], l, ls, refl, rw append-nil h, rw all past, rw all refl),
            )
        | inr below ↦
            let room : length longer ≤ limit = ground arith in
            let (file, written, w) = write_lines-Written longer ls room in
            (file, rw (opened, below) written, add_line before l ls file w)
      ]
    where
      add_line :
          (before l : Bytes) (ls : List Bytes) (file : Bytes)
          → Written (before ++ (l ++ (10 ∷ []))) ls file
          → Written before (l ∷ ls) file
      add_line before l ls file w = elim w [
        | inl (all, fits) ↦ inl (all ∙ move before l ls, fits)
        | inr (first, last, rest, e, fits, over, bytes) ↦ inr (
          l ∷ first,
          last,
          rest,
          ap (λ x. l ∷ x) e,
          subst (λ x. length x ≤ limit) (move before l first) fits,
          subst (λ x. limit < length x) (move before l (first ++ (last ∷ []))) over,
          bytes ∙ ap (λ x. x ++ mark) (move before l (first ++ (last ∷ []))),
        )
      ]
        where
          move :
              (before l : Bytes) (ls : List Bytes)
              → (before ++ (l ++ (10 ∷ []))) ++ joined ls ≡ before ++ joined (l ∷ ls)
          move before l ls = append_assoc before (l ++ (10 ∷ [])) (joined ls)

none_first :
    (limit : ℕ) (mark l : Bytes) → write_line limit mark none l ≡ write_line limit mark (some []) l
unfolding write_line
none_first limit mark l = refl_at (ltb limit 0) (ground arith)
  where
    refl_at :
        (b : Bool)
        → b ≡ false
        → write_line limit mark none l ≡ (if b then some [] else write_line limit mark none l)
    refl_at b e = rw e refl

-- `_emit` of one line after another
unfoldable pub emit_all : Map Str Bytes × LogBus → Str → List Bytes → Map Str Bytes × LogBus
emit_all s build_id [] = s
emit_all s build_id (l ∷ ls) = emit_all (emit s build_id l) build_id ls

log-emit_all :
    (s : Map Str Bytes × LogBus) (build_id : Str) (ls : List Bytes)
    → (emit_all s build_id ls).0 build_id ≡ write_lines max_log_bytes marker (s.0 build_id) ls
unfolding emit_all emit write_lines
log-emit_all s build_id [] = refl
log-emit_all (logs, bus) build_id (l ∷ ls) =
    let self : (build_id == build_id) ≡ true = (==_iff build_id build_id).1 refl in
    log-emit_all (emit (logs, bus) build_id l) build_id ls ∙ rw self refl

other-emit_all :
    (s : Map Str Bytes × LogBus) (build_id other : Str) (ls : List Bytes)
    → (other ≢ build_id)
    → (emit_all s build_id ls).0 other ≡ s.0 other
unfolding emit_all emit
other-emit_all s build_id other [] ne = refl
other-emit_all (logs, bus) build_id other (l ∷ ls) ne =
    other-emit_all (emit (logs, bus) build_id l) build_id other ls ne
    ∙ rw (==_apart other build_id ne) refl

-- After lines of a build that had no log file, its file holds all of them, if they fit the limit, or
-- as many of the first as it takes to get over the limit, and the marker once. No other build's file
-- has changed.
pub emit_all_lem :
    (logs : Map Str Bytes) (bus : LogBus) (build_id : Str) (l : Bytes) (ls : List Bytes)
    → logs build_id ≡ none
    → let after = (emit_all (logs, bus) build_id (l ∷ ls)).0 in
      (file : Bytes) × (after build_id ≡ some file)
      × (((file ≡ joined (l ∷ ls)) × (length file ≤ max_log_bytes))
          ⊎ ((first : List Bytes) × (last : Bytes) × (rest : List Bytes) × (l ∷ ls
                ≡ first ++ (last ∷ rest))
              × (length (joined first) ≤ max_log_bytes)
              × (max_log_bytes < length (joined (first ++ (last ∷ []))))
              × (file ≡ joined (first ++ (last ∷ [])) ++ marker)))
      × ((other : Str) → (other ≢ build_id) → after other ≡ logs other)
unfolding write_lines
emit_all_lem logs bus build_id l ls new =
    let (file, written, w) = write_lines-Written max_log_bytes marker [] (l ∷ ls) (omega arith) in
    let start =
      log-emit_all (logs, bus) build_id (l ∷ ls)
      ∙ ap (λ f. write_lines max_log_bytes marker f (l ∷ ls)) new
      ∙ ap (λ f. write_lines max_log_bytes marker f ls) (none_first max_log_bytes marker l) in
    (file, start ∙ written, w, λ other ne. other-emit_all (logs, bus) build_id other (l ∷ ls) ne)
