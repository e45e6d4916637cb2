-- ===== src/Core/Framing.antt =====
-- `Channel.read` and the reader thread of src/syllva/core/stdio.py, on the bytes of the input.
pub mod Reading
use syllva.Prelude.{
  ℕ, ◌+◌, suc, zero, ◌<◌, ◌≤◌, Text, codes, teq, Bool, true, false, ◌&&◌, ◌||◌, not, Option, none,
  some, List, [], ◌∷◌, ◌++◌, ◌≡◌, ◌⊎◌, refl, ap, arith, inl, inr, ltb, leb, ◌==◌, if◌then◌else◌,
  length, Bool-cases, Option-cases, map,
}
use syllva.Gate.Canonical.{Json, str, dict, Fields, end, field}
use syllva.Core.{Item, message, eof, violation, max_line, get, string_of}

-- `readline(n)`: the bytes up to a newline, at most `n` of them, and the bytes behind them.
unfoldable pub readline : ℕ → Text → Text × Text
readline zero input = ([], input)
readline (suc n) [] = ([], [])
readline (suc n) (c ∷ cs) =
    let rest = readline n cs in if c == 10 then (10 ∷ [], cs) else (c ∷ rest.0, rest.1)

unfoldable pub ends_line : Text → Bool
ends_line [] = false
ends_line (c ∷ []) = c == 10
ends_line (c ∷ d ∷ cs) = ends_line (d ∷ cs)

-- What `json.loads` does on a line: it returns a value or raises a `ValueError` (`UnicodeDecodeError` is
-- one), or a `RecursionError` where the nesting is too deep.
pub data Loaded : Type 0 where
  loaded : Json → Loaded
  value_error recursion_error : Loaded

-- What `Channel.read` does: `gives` is a message, the end of the input, or a `ProtocolViolation`; any
-- other exception leaves it.
pub data ReadResult : Type 0 where
  gives : Item → ReadResult
  dies : ReadResult

-- The thread still has to read, has returned, or has ended with an exception.
pub data ThreadState : Type 0 where
  running returned died : ThreadState

abbrev pub typed : Option Text → Fields → Item
typed none m = violation
typed (some t) m = message m

abbrev pub object_of : Json → Item
object_of (dict m) = typed (string_of (get (codes "t") m)) m
object_of _ = violation

-- Only `ValueError` is turned into a `ProtocolViolation`.
abbrev pub item_of : Loaded → ReadResult
item_of (loaded j) = gives (object_of j)
item_of value_error = gives violation
item_of recursion_error = dies

-- One turn of the thread, in front of what the next turns put in the inbox.
abbrev pub put : ReadResult → List Item × ThreadState → List Item × ThreadState
put (gives (message m)) rest = (message m ∷ rest.0, rest.1)
put (gives eof) rest = (eof ∷ [], returned)
put (gives violation) rest = (violation ∷ [], returned)
put dies rest = ([], died)

module _ (loads : Text → Loaded) where
  unfoldable pub item_of_line : Text → ReadResult
  unfolding ends_line get
  item_of_line [] = gives eof
  item_of_line (c ∷ cs) =
      if ltb max_line (length (c ∷ cs)) || not (ends_line (c ∷ cs))
      then gives violation
      else item_of (loads (c ∷ cs))

  unfoldable pub read : Text → ReadResult × Text
  unfolding readline item_of_line
  read input = let line = readline (max_line + 1) input in (item_of_line line.0, line.1)

  -- The reader thread: what it puts in the inbox, and how it ends.
  unfoldable pub reader : ℕ → Text → List Item × ThreadState
  unfolding read
  reader zero input = ([], running)
  reader (suc fuel) input =
      let first = read input in let rest = reader fuel first.1 in put first.0 rest

-- What `Channel.send` writes for each of these texts.
unfoldable pub frames : List Text → Text
frames [] = []
frames (b ∷ bs) = b ++ (10 ∷ frames bs)
