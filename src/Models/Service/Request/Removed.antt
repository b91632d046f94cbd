-- ===== src/Models/Service/Request/Removed.antt =====
-- What `delete` takes away, and what it leaves.
use layersmith.Prelude.{
  ℕ, ◌≡◌, ◌≢◌, refl, sym, ap, subst, ◌∙◌, ◌⊎◌, inl, inr, true, false, Option, none, some, List, [],
  ◌∷◌, Bool-cases, ◌==◌, ==_iff, ==_apart, nat_eq, list_eq, contains, ◌++◌,
}
use layersmith.Prelude.Result.{ok}
use layersmith.Prelude.Text.{Str, text}
use layersmith.Prelude.Map.{Map}
use layersmith.Split.Manifest.{Disk}
use layersmith.Models.Service.{
  LlmModel, Models, get, active, staging_dir, without_row, add, is_inside, left, remove_folder,
  delete,
}
use layersmith.Models.Service.Rows.{get-without_row}

get-without_row_other :
    (id j : Str) (rows : List LlmModel) → j ≢ id → get j (without_row id rows) ≡ get j rows
unfolding get
get-without_row_other id j [] ne = refl
get-without_row_other id j (m ∷ ms) ne =
    let rest = get-without_row_other id j ms ne in
    elim (Bool-cases (m.id == id)) [
      | inl hit ↦
          let old : (m.id == j) ≡ false = ==_apart m.id j (λ x. ne (sym x ∙ (==_iff _ _).0 hit)) in
          rw (hit, old) rest
      | inr miss ↦ rw (miss, rest) refl
    ]

contains-add : (x : Str) (xs : List Str) → contains (add x xs) x ≡ true
contains-add x xs = elim (Bool-cases (contains xs x)) [
  | inl old ↦ rw (old, old) refl
  | inr new ↦ let same : (x == x) ≡ true = (==_iff x x).1 refl in rw (new, same) refl
]

module _ (rmtree : Str → Disk → Option Disk) (resolve : Str → List Str) (model_dir : Str) where
  -- `rmtree` removes the whole folder.
  abbrev pub Removes : Str → Type 0
  Removes folder = (disk : Disk) → rmtree folder disk ≡ none

  -- The folder keeps what it holds, or it is inside the model directory and has this path.
  abbrev Kept : Map Str Disk → Map Str Disk → Str → Str → Type 0
  Kept before after folder f =
      (after f ≡ before f) ⊎ ((f ≡ folder) × (is_inside rmtree resolve model_dir f ≡ true))

  remove_folder_lem :
      (folder f : Str) (dirs : Map Str Disk)
      → Kept dirs (remove_folder rmtree resolve model_dir (some folder) dirs) folder f
  remove_folder_lem [] f dirs = inl refl
  remove_folder_lem (c ∷ folder) f dirs =
      elim (Bool-cases (is_inside rmtree resolve model_dir (c ∷ folder))) [
        | inr outside ↦ rw outside (inl refl)
        | inl inside ↦ rw inside (elim (Bool-cases (f == c ∷ folder)) [
          | inl same ↦
              let e = (==_iff _ _).0 same in
              rw same
                (inr (e, subst (λ x. is_inside rmtree resolve model_dir x ≡ true) (sym e) inside))
          | inr other ↦ rw other (inl refl)
        ])
      ]

  remove_folder_gone :
      (c : ℕ) (folder : Str) (dirs : Map Str Disk)
      → is_inside rmtree resolve model_dir (c ∷ folder) ≡ true
      → Removes (c ∷ folder)
      → remove_folder rmtree resolve model_dir (some (c ∷ folder)) dirs (c ∷ folder) ≡ none
  remove_folder_gone c folder dirs inside wiped =
      let same : (c ∷ folder == c ∷ folder) ≡ true = (==_iff (c ∷ folder) (c ∷ folder)).1 refl in
      rw (inside, same) (none_left (dirs (c ∷ folder)))
    where
      none_left : (o : Option Disk) → left rmtree resolve model_dir (c ∷ folder) o ≡ none
      none_left none = refl
      none_left (some disk) = wiped disk

  -- The row is gone and no other row is touched; the model's folder and that of its download are gone
  -- where they lie inside the model directory and `rmtree` removes them, and every other folder is kept
  -- as it is; and a run
  -- that is going on finds its model cancelled.
  pub record IsRemoved (id : Str) (m : LlmModel) (s t : Models) : Type 0 where
    pub gone : get id t.rows ≡ none
    pub others : (j : Str) → j ≢ id → get j t.rows ≡ get j s.rows
    pub folders :
        (f : Str)
        → (t.dirs f ≡ s.dirs f)
          ⊎ ((is_inside rmtree resolve model_dir f ≡ true)
              × ((m.path ≡ some f) ⊎ (f ≡ staging_dir model_dir id)))
    pub emptied :
        (c : ℕ) (f : Str)
        → m.path ≡ some (c ∷ f)
        → is_inside rmtree resolve model_dir (c ∷ f) ≡ true
        → Removes (c ∷ f)
        → t.dirs (c ∷ f) ≡ none
    pub unstaged :
        is_inside rmtree resolve model_dir (staging_dir model_dir id) ≡ true
        → Removes (staging_dir model_dir id)
        → t.dirs (staging_dir model_dir id) ≡ none
    pub stopped : contains active m.status ≡ true → contains t.cancel id ≡ true

  path_lem :
      (path : Option Str) (f : Str) (dirs : Map Str Disk)
      → (remove_folder rmtree resolve model_dir path dirs f ≡ dirs f)
        ⊎ ((is_inside rmtree resolve model_dir f ≡ true) × (path ≡ some f))
  path_lem none f dirs = inl refl
  path_lem (some folder) f dirs = elim (remove_folder_lem folder f dirs) [
    | inl kept ↦ inl kept
    | inr (same, inside) ↦ inr (inside, ap (λ x. some x) (sym same))
  ]

  both_lem :
      (path : Option Str) (folder f : Str) (dirs : Map Str Disk)
      → let after =
          remove_folder rmtree resolve model_dir
            (some folder)
            (remove_folder rmtree resolve model_dir path dirs) in
        (after f ≡ dirs f)
        ⊎ ((is_inside rmtree resolve model_dir f ≡ true) × ((path ≡ some f) ⊎ (f ≡ folder)))
  both_lem path folder f dirs =
      elim (remove_folder_lem folder f (remove_folder rmtree resolve model_dir path dirs)) [
        | inr (same, inside) ↦ inr (inside, inr same)
        | inl kept ↦ elim (path_lem path f dirs) [
          | inl still ↦ inl (kept ∙ still)
          | inr (inside, same) ↦ inr (inside, inl same)
        ]
      ]

  emptied_lem :
      (path : Option Str) (folder : Str) (c : ℕ) (f : Str) (dirs : Map Str Disk)
      → path ≡ some (c ∷ f)
      → is_inside rmtree resolve model_dir (c ∷ f) ≡ true
      → Removes (c ∷ f)
      → remove_folder rmtree resolve model_dir
          (some folder)
          (remove_folder rmtree resolve model_dir path dirs)
          (c ∷ f)
        ≡ none
  emptied_lem path folder c f dirs e inside wiped =
      let gone : remove_folder rmtree resolve model_dir path dirs (c ∷ f) ≡ none =
        rw e (remove_folder_gone c f dirs inside wiped) in
      elim (remove_folder_lem folder (c ∷ f) (remove_folder rmtree resolve model_dir path dirs)) [
        | inl kept ↦ kept ∙ gone
        | inr (same, _) ↦
            subst
              (λ x.
                remove_folder rmtree resolve model_dir (some x)
                  (remove_folder rmtree resolve model_dir path dirs) (c ∷ f)
                ≡ none)
              same
              (remove_folder_gone c f (remove_folder rmtree resolve model_dir path dirs) inside
                wiped)
      ]

  remove_folder_staging :
      (id : Str) (dirs : Map Str Disk)
      → is_inside rmtree resolve model_dir (staging_dir model_dir id) ≡ true
      → Removes (staging_dir model_dir id)
      → remove_folder rmtree resolve model_dir
          (some (staging_dir model_dir id))
          dirs
          (staging_dir model_dir id)
        ≡ none
  unfolding staging_dir
  remove_folder_staging id dirs inside wiped = go model_dir inside wiped
    where
      ending : Str
      ending = text "/.download-" ++ id

      go :
          (dir : Str)
          → is_inside rmtree resolve model_dir (dir ++ ending) ≡ true
          → Removes (dir ++ ending)
          → remove_folder rmtree resolve model_dir (some (dir ++ ending)) dirs (dir ++ ending)
            ≡ none
      go [] inside wiped = remove_folder_gone _ _ dirs inside wiped
      go (c ∷ dir) inside wiped = remove_folder_gone c (dir ++ ending) dirs inside wiped

  -- `delete` of a model that is there returns, whatever its state and whatever `rmtree` leaves. It has then
  -- removed the model's row and no other; the model's folder and the folder of its download are gone,
  -- where they lie inside the model directory and `rmtree` removes them; every other folder is as it
  -- was; and a run that is going on finds its model cancelled.
  pub delete-IsRemoved :
      (id : Str) (m : LlmModel) (s : Models)
      → get id s.rows ≡ some m
      → (freed : ℕ) × (t : Models) × (delete rmtree resolve model_dir id s ≡ ok (freed, t))
        × IsRemoved id m s t
  unfolding delete
  delete-IsRemoved id m s row = rw row (
    _,
    _,
    refl,
    record {
      gone = get-without_row id s.rows;
      others = λ j ne. get-without_row_other id j s.rows ne;
      folders = λ f. both_lem m.path (staging_dir model_dir id) f s.dirs;
      emptied = λ c f e inside wiped.
          emptied_lem m.path (staging_dir model_dir id) c f s.dirs e inside wiped;
      unstaged = λ inside wiped.
          remove_folder_staging id (remove_folder rmtree resolve model_dir m.path s.dirs) inside
            wiped;
      stopped = λ busy. rw busy (contains-add id s.cancel);
    },
  )
