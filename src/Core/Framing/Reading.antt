-- ===== src/Core/Framing/Reading.antt =====
-- How the reader thread of src/syllva/core/stdio.py ends, and that it reads back what was framed.
use syllva.Prelude.{◌<◌, ◌≤◌, ◌⊎◌, Text, false, List, [], ◌∷◌, ◌++◌, ◌≡◌, ◌==◌, length, any}
use syllva.Gate.Canonical.{Fields}
use syllva.Core.{Item, message, eof, violation, max_line}
use syllva.Core.Framing.{Loaded, recursion_error, gives, ThreadState, returned, died, item_of}

-- The inbox closes with the end of the input or with a violation, and has messages in front of it.
abbrev pub IsClosed : List Item → Type 0
IsClosed [] = ⊥
IsClosed (message m ∷ items) = IsClosed items
IsClosed (eof ∷ []) = Unit
IsClosed (eof ∷ i ∷ items) = ⊥
IsClosed (violation ∷ []) = Unit
IsClosed (violation ∷ i ∷ items) = ⊥

-- Only messages are in the inbox: nothing tells the loop that the thread has ended.
abbrev pub OnlyMessages : List Item → Type 0
OnlyMessages [] = Unit
OnlyMessages (message m ∷ items) = OnlyMessages items
OnlyMessages (eof ∷ items) = ⊥
OnlyMessages (violation ∷ items) = ⊥

-- A line of the input, not longer than the longest line, on which `loads` raises `RecursionError`.
pub record HasDeepLine (loads : Text → Loaded) (input : Text) : Type 0 where
  pub before : Text
  pub line : Text
  pub after : Text
  pub split : before ++ (line ++ after) ≡ input
  pub short : length line ≤ max_line
  pub deep : loads line ≡ recursion_error

-- The thread has returned with a closed inbox, or it has died on a line that is nested too deep.
abbrev pub IsOver : (loads : Text → Loaded) → Text → List Item × ThreadState → Type 0
IsOver loads input r =
    ((r.1 ≡ returned) × IsClosed r.0) ⊎ ((r.1 ≡ died) × OnlyMessages r.0 × HasDeepLine loads input)

-- The pairs of a text and the message that it is read as. A text is on one line, and shorter than a line.
pub data IsFramed (loads : Text → Loaded) : List (Text × Fields) → Type 0 where
  none_framed : IsFramed loads []
  one_more :
      {body : Text} {m : Fields} {fs : List (Text × Fields)}
      → any (λ c. c == 10) body ≡ false
      → length body < max_line
      → item_of (loads (body ++ (10 ∷ []))) ≡ gives (message m)
      → IsFramed loads fs
      → IsFramed loads ((body, m) ∷ fs)
