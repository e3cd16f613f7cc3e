-- ===== src/QrFrames/Reader.antt =====
-- The reader of the frames, as the format's description has it (the comment at the top of
-- apps/control-api/src/qrFrames.ts): each frame is checked, none may be
-- missing, and the chunks are put together.
use amnezia_shared_panel.Base.{
  ℕ, ◌+◌, ◌*◌, ◌&&◌, List, [], ◌∷◌, ◌++◌, Option, none, some, if◌then◌else◌, ◌==◌, length,
}

-- A frame of the chunk with this index, of this many: its chunk.
abbrev pub read_frame : ℕ → ℕ → List ℕ → Option (List ℕ)
read_frame count index (m ∷ n ∷ c ∷ i ∷ s ∷ t ∷ u ∷ v ∷ chunk) =
    if m * 256 + n == 1984
      && c == count
      && i == index
      && s * 16_777_216 + t * 65_536 + u * 256 + v == length chunk
    then some chunk
    else none
read_frame count index _ = none

abbrev joined : Option (List ℕ) → Option (List ℕ) → Option (List ℕ)
joined (some chunk) (some rest) = some (chunk ++ rest)
joined _ _ = none

abbrev pub read_frames : (List ℕ → List ℕ) → ℕ → ℕ → List (List ℕ) → Option (List ℕ)
read_frames decode count index [] = if index == count then some [] else none
read_frames decode count index (text ∷ texts) =
    joined (read_frame count index (decode text)) (read_frames decode count (index + 1) texts)
