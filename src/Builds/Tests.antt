-- ===== src/Builds/Tests.antt =====
-- Deletions on a table of two builds that share an archive.
use layersmith.Prelude.{
  ◌≡◌, ◌≢◌, refl, true, false, none, some, List, [], ◌∷◌, map, inl, inr, contains, nat_eq, list_eq,
  list_beq,
}
use layersmith.Prelude.Result.{ok}
use layersmith.Prelude.Text.{Str, text}
use layersmith.Prelude.Map.{empty, put, erase}
use layersmith.Prelude.{ℕ, ◌≤◌, ◌<◌, ◌⊎◌, ◌++◌, length, if◌then◌else◌, arith}
use layersmith.Split.Stream.{Bytes}
use layersmith.Builds.Log.{
  LogBus, Message, channels_of, publish, subscribe, unsubscribe, max_log_bytes, marker,
}
use layersmith.Builds.Log.File.{joined, emit_all, emit_all_lem}
use layersmith.Builds.Log.Channels.{IsSound, offered, publish_lem}
use layersmith.Prelude.Map.{Map}
use layersmith.Builds.Context.{Spec, Upload, plain, Context, path_of, tool, file, script_body}
use layersmith.Builds.Removal.{
  Build, File, Store, Deleted, paths_of, shared_paths, any_root, present, find, delete, kept_shared,
  kept_image,
}
use layersmith.Builds.Removal.Keeps.{Among, delete-KeepsOthers}
use layersmith.Builds.Removal.Removes.{delete-Removes}

-- A path of one part
abbrev parts : Str → List Str
parts path = path ∷ []

abbrev first : Build
first = record {
  id = 1 ∷ [];
  number = 1;
  status = text "ready";
  error = none;
  export_path = some (text "x.tar");
  airgap_path = some (text "x.zip");
  exports = [];
  image_ref = some (text "x:1");
}

abbrev second : Build
second = record first { id = 2 ∷ []; number = 2; airgap_path = none }

abbrev archive : File
archive = record { size = 7; failure = none }

abbrev store : Store
store = record {
  builds = first ∷ second ∷ [];
  disk = put (put empty (text "x.tar") archive) (text "x.zip") archive;
  logs = put empty (2 ∷ []) (text "log");
  contexts = empty;
}

abbrev allowed : List Str
allowed = text "x.tar" ∷ text "x.zip" ∷ []

abbrev left : Store
left = record {
  builds = second ∷ [];
  disk = erase store.disk (text "x.zip");
  logs = erase store.logs (1 ∷ []);
  contexts = erase store.contexts (1 ∷ []);
}

abbrev answer : Deleted
answer = record {
  number = 1;
  freed_bytes = 7;
  image = none;
  notes = kept_shared (text "x.tar") ∷ kept_image (text "x:1") ∷ [];
}

deleted : delete parts store first.id allowed true ≡ ok (left, answer)
unfolding delete list_beq
deleted = refl

delete-KeepsOthers_example :
    Among second left.builds
    × ((path : Str) → contains (paths_of second) path ≡ true → left.disk path ≡ store.disk path)
    × (left.logs second.id ≡ store.logs second.id)
    × ((ref : Str)
        → answer.image ≡ some ref
        → contains (present (second.image_ref ∷ [])) ref ≡ false)
unfolding text
delete-KeepsOthers_example =
    delete-KeepsOthers parts store first.id allowed true left answer second deleted (inr (inl refl))
      (λ e. cc)

delete-Removes_example :
    (find first.id left.builds ≡ none)
    × (left.logs first.id ≡ none)
    × (left.contexts first.id ≡ none)
    × ((path : Str) (f : File)
        → contains (paths_of first) path ≡ true
        → contains (shared_paths left.builds) path ≡ false
        → any_root (parts path) (map parts allowed) ≡ true
        → store.disk path ≡ some f
        → f.failure ≡ none
        → left.disk path ≡ none)
unfolding list_beq text
delete-Removes_example = delete-Removes parts store allowed true first left answer refl deleted

abbrev silent : LogBus
silent = record { subscribers = empty; queues = λ c. []; next = 0 }

silent-IsSound : IsSound silent
silent-IsSound = record { distinct = λ id. tt; known = λ id. tt; bounded = λ c. omega arith }

-- One channel follows the first build.
abbrev bus : LogBus
bus = (subscribe silent first.id).0

bus-IsSound : IsSound bus
bus-IsSound =
    let (queues, after, followed, left) = publish_lem silent first.id silent-IsSound in followed

publish_lem_example :
    ((m : Message) (c : ℕ)
      → (publish bus first.id m).queues c ≡ (
          if contains (channels_of (bus.subscribers first.id)) c
          then offered m (bus.queues c)
          else bus.queues c))
    × ((m : Message) → IsSound (publish bus first.id m))
    × IsSound (subscribe bus first.id).0
    × ((channel : ℕ) → IsSound (unsubscribe bus first.id channel))
publish_lem_example = publish_lem bus first.id bus-IsSound

emit_all_lem_example :
    let after = (emit_all (store.logs, bus) first.id ((7 ∷ []) ∷ (8 ∷ []) ∷ [])).0 in
    (file : Bytes) × (after first.id ≡ some file)
    × (((file ≡ joined ((7 ∷ []) ∷ (8 ∷ []) ∷ [])) × (length file ≤ max_log_bytes))
        ⊎ ((before : List Bytes) × (last : Bytes) × (rest : List Bytes) × ((7 ∷ []) ∷ (8 ∷ []) ∷ []
              ≡ before ++ (last ∷ rest))
            × (length (joined before) ≤ max_log_bytes)
            × (max_log_bytes < length (joined (before ++ (last ∷ []))))
            × (file ≡ joined (before ++ (last ∷ [])) ++ marker)))
    × ((other : Str) → (other ≢ first.id) → after other ≡ store.logs other)
unfolding list_beq
emit_all_lem_example = emit_all_lem store.logs bus first.id (7 ∷ []) ((8 ∷ []) ∷ []) refl

abbrev own : Bytes → Str
own bytes = bytes

abbrev blob : Bytes
blob = 5 ∷ 6 ∷ []

abbrev uploads : Map Str Upload
uploads = put empty blob (plain blob)

abbrev spec : Spec
spec = record {
  tools = blob ∷ [];
  files = [];
  scripts = record { key = text "pre_build"; body = text "make"; is_blank = false } ∷ [];
}

-- The files of the context that `spec` and a Containerfile `FROM x` come to
abbrev context : Context
context = record {
  files =
      put (put (put empty (text "Containerfile") (text "FROM x")) (path_of (tool blob)) blob)
        (text "scripts/pre-build.sh") (script_body (text "make"));
  total = 2;
}
