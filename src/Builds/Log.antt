-- ===== src/Builds/Log.antt =====
-- `LogBus` and `_emit` in services/builds.py: the log of a build on disk, and those who follow it live.
-- A channel is the number of the queue that `subscribe` has made. A line is its bytes in UTF-8.
pub mod File
pub mod Channels
use layersmith.Prelude.{
  ℕ, ◌+◌, ◌*◌, Bool, true, false, Option, none, some, List, [], ◌∷◌, ◌++◌, ltb, ◌==◌, nat_eq,
  list_eq, contains, if◌then◌else◌, length,
}
use layersmith.Prelude.Text.{Str, text}
use layersmith.Prelude.Map.{Map, put, erase}
use layersmith.Split.Stream.{Bytes}

-- MAX_LOG_BYTES, and the `maxsize` of a queue
abbrev pub max_log_bytes : ℕ
max_log_bytes = 32 * 1024 * 1024

abbrev pub queue_size : ℕ
queue_size = 10000

-- `"[log truncated at 32 MiB]\n"`
abbrev pub marker : Bytes
marker = text "[log truncated at 32 MiB]" ++ (10 ∷ [])

-- The messages that are published
pub data Message : Type 0 where
  log : Bytes → Message
  status : Str → Message
  done : Str → Message

pub record LogBus : Type 0 where
  pub subscribers : Map Str (List ℕ)
  pub queues : ℕ → List Message
  pub next : ℕ

abbrev pub channels_of : Option (List ℕ) → List ℕ
channels_of none = []
channels_of (some channels) = channels

-- `subscribe(build_id)`, with the channel
unfoldable pub subscribe : LogBus → Str → LogBus × ℕ
subscribe bus build_id = (
  record {
    subscribers =
        put bus.subscribers build_id (channels_of (bus.subscribers build_id) ++ (bus.next ∷ []));
    queues = λ c. if c == bus.next then [] else bus.queues c;
    next = bus.next + 1;
  },
  bus.next,
)

-- `list.remove(x)`: the first that is equal
abbrev pub remove : List ℕ → ℕ → List ℕ
remove [] c = []
remove (x ∷ xs) c = let rest = x ∷ remove xs c in if x == c then xs else rest

-- `if not channels: self._subscribers.pop(build_id, None)`
abbrev pub put_or_pop : LogBus → Str → List ℕ → LogBus
put_or_pop bus build_id [] = record bus { subscribers = erase bus.subscribers build_id }
put_or_pop bus build_id (c ∷ cs) = record bus {
  subscribers = put bus.subscribers build_id (c ∷ cs);
}

-- `unsubscribe(build_id, channel)`
unfoldable pub unsubscribe : LogBus → Str → ℕ → LogBus
unsubscribe bus build_id channel =
    put_or_pop bus build_id (remove (channels_of (bus.subscribers build_id)) channel)

-- `channel.put_nowait(message)`; a full queue stays as it is.
abbrev pub put_nowait : Message → (ℕ → List Message) → ℕ → ℕ → List Message
put_nowait message queues channel c =
    if c == channel
    then (if ltb (length (queues c)) queue_size then queues c ++ (message ∷ []) else queues c)
    else queues c

unfoldable pub put_all : Message → (ℕ → List Message) → List ℕ → ℕ → List Message
put_all message queues [] = queues
put_all message queues (c ∷ cs) = put_all message (put_nowait message queues c) cs

-- `publish(build_id, message)`
unfoldable pub publish : LogBus → Str → Message → LogBus
unfolding put_all
publish bus build_id message = record bus {
  queues = put_all message bus.queues (channels_of (bus.subscribers build_id));
}

abbrev is_truncated : ℕ → Option Bytes → Bool
is_truncated limit none = false
is_truncated limit (some b) = ltb limit (length b)

abbrev pub bytes_of : Option Bytes → Bytes
bytes_of none = []
bytes_of (some b) = b

-- The log file after `_emit` of a line
unfoldable pub write_line : ℕ → Bytes → Option Bytes → Bytes → Option Bytes
write_line limit mark file line =
    let longer = bytes_of file ++ (line ++ (10 ∷ [])) in
    if is_truncated limit file
    then file
    else some (if ltb limit (length longer) then longer ++ mark else longer)

-- `_emit(build_id, line)`, over the log files and the bus
unfoldable pub emit : Map Str Bytes × LogBus → Str → Bytes → Map Str Bytes × LogBus
unfolding write_line publish text
emit (logs, bus) build_id line = (
  λ id. if id == build_id then write_line max_log_bytes marker (logs id) line else logs id,
  publish bus build_id (log line),
)
