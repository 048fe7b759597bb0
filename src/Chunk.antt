-- ===== src/Chunk.antt =====
-- grpc/chunk/chunker.go: items are sent in chunks below a size. `S` is what sending changes and `E`
-- the errors; an answer of `none` is a nil error. `proto.Size` and the function that sends are
-- arguments, and that function does not keep the buffer, which is used again.
pub mod Packed
mod Examples
use zoekt.Prelude.{ℕ, ◌+◌, ltb, leb, if◌then◌else◌, List, [], ◌∷◌, ◌++◌, Option, none, some}

-- `maxMessageSize`
abbrev pub max_message_size : ℕ
max_message_size = 1048576

pub record Chunker (A : Type 0) : Type 0 where
  pub buffer : List A
  pub size_bytes : ℕ

-- `New`
abbrev pub new : {A : Type 0} → Chunker A
new = record { buffer = []; size_bytes = 0 }

-- What a method leaves: its error, the chunker, and the state of the other side.
pub record Sent (A S E : Type 0) : Type 0 where
  pub error : Option E
  pub chunker : Chunker A
  pub state : S

-- `if err != nil { return err }`
abbrev pub and_then :
    {A S E : Type 0} → Option E → Chunker A → S → (Chunker A → S → Sent A S E) → Sent A S E
and_then (some err) c s rest = record { error = some err; chunker = c; state = s }
and_then none c s rest = rest c s

module _ {A S E : Type 0} (size : A → ℕ) (send_func : List A → S → S × Option E) where
  -- The buffer is kept when sending fails, its size is not.
  unfoldable pub send_response_msg : Chunker A → S → Sent A S E
  send_response_msg c s =
      let r = send_func c.buffer s in
      and_then r.1 (record c { size_bytes = 0 }) r.0
        (λ c' s'. record { error = none; chunker = record c' { buffer = [] }; state = s' })

  abbrev pub add_item : A → Chunker A → S → Sent A S E
  add_item item c s = record {
    error = none;
    chunker = record { buffer = c.buffer ++ item ∷ []; size_bytes = c.size_bytes + size item };
    state = s;
  }

  unfoldable pub send_one : A → Chunker A → S → Sent A S E
  unfolding send_response_msg
  send_one item c s =
      let sent = send_response_msg c s in
      if leb max_message_size (size item + c.size_bytes)
      then and_then sent.error sent.chunker sent.state (add_item item)
      else add_item item c s

  -- `Send`
  unfoldable pub send : List A → Chunker A → S → Sent A S E
  unfolding send_one
  send [] c s = record { error = none; chunker = c; state = s }
  send (item ∷ items) c s =
      let sent = send_one item c s in
      and_then sent.error sent.chunker sent.state (λ c' s'. send items c' s')

  -- `len(c.buffer) == 0`
  unfoldable pub flush : Chunker A → S → Sent A S E
  unfolding send_response_msg
  flush c s = elim c.buffer [
    | [] ↦ record { error = none; chunker = c; state = s }
    | x ∷ xs ↦ send_response_msg c s
  ]

  -- `SendAll`
  unfoldable pub send_all : List A → S → Sent A S E
  unfolding send flush
  send_all items s =
      let sent = send items new s in and_then sent.error sent.chunker sent.state flush
