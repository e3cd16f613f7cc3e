-- ===== src/QrFrames.antt =====
-- The QR frames of apps/control-api/src/qrFrames.ts. A byte and a character are numbers, a buffer
-- and a text are lists of them. `trim` is the string method of the source's language, and `encode`
-- and `decode` are its buffers' base64. `none` is an error that is thrown.
pub mod Reader
pub mod RoundTrip
mod Tests
use amnezia_shared_panel.Base.{
  ℕ, zero, suc, ◌+◌, ◌-◌, ◌/◌, ◌%◌, Bool, true, false, not, ◌&&◌, ◌||◌, List, [], ◌∷◌, ◌++◌, map,
  Option, none, some, if◌then◌else◌, ◌==◌, ltb, leb, length, take, drop,
}

-- QR_FRAME_MAGIC, QR_FRAME_CHUNK_BYTES and QR_FRAME_MAX_FRAMES
abbrev pub frame_magic : ℕ
frame_magic = 1984

abbrev pub frame_chunk_bytes : ℕ
frame_chunk_bytes = 850

abbrev pub max_frames : ℕ
max_frames = 255

-- `.replace(/\+/g, "-").replace(/\//g, "_")`, and back.
abbrev pub to_url : ℕ → ℕ
to_url c = if c == b'+' then b'-' else if c == b'/' then b'_' else c

abbrev from_url : ℕ → ℕ
from_url c = if c == b'-' then b'+' else if c == b'_' then b'/' else c

-- `.replace(/=+$/g, "")`
abbrev pub keep_before : ℕ → List ℕ → List ℕ
keep_before c [] = if c == b'=' then [] else c ∷ []
keep_before c (x ∷ xs) = c ∷ x ∷ xs

abbrev strip_padding : List ℕ → List ℕ
strip_padding [] = []
strip_padding (c ∷ cs) = keep_before c (strip_padding cs)

abbrev is_letter : ℕ → ℕ → Bool
is_letter c small = c == small || c + 32 == small

-- `.replace(/^vpn:\/\//i, "")`
abbrev strip_scheme : List ℕ → List ℕ
strip_scheme (a ∷ b ∷ c ∷ d ∷ e ∷ f ∷ rest) =
    if is_letter a b'v'
      && is_letter b b'p'
      && is_letter c b'n'
      && d == b':'
      && e == b'/'
      && f == b'/'
    then rest
    else a ∷ b ∷ c ∷ d ∷ e ∷ f ∷ rest
strip_scheme short = short

module _ (trim : List ℕ → List ℕ) (encode decode : List ℕ → List ℕ) where
  unfoldable pub to_base64_url : List ℕ → List ℕ
  to_base64_url buffer = strip_padding (map to_url (encode buffer))

  abbrev non_empty : List ℕ → Option (List ℕ)
  non_empty [] = none
  non_empty (b ∷ bs) = some (b ∷ bs)

  abbrev payload_bytes : List ℕ → List ℕ
  payload_bytes [] = []
  payload_bytes (c ∷ cs) = decode (map from_url (c ∷ cs))

  unfoldable pub decode_vpn_link_bytes : List ℕ → Option (List ℕ)
  decode_vpn_link_bytes vpn_link = non_empty (payload_bytes (strip_scheme (trim vpn_link)))

  abbrev int16_be : ℕ → List ℕ
  int16_be v = v / 256 % 256 ∷ v % 256 ∷ []

  abbrev uint32_be : ℕ → List ℕ
  uint32_be v = v / 16_777_216 % 256 ∷ v / 65_536 % 256 ∷ v / 256 % 256 ∷ v % 256 ∷ []

  -- The writes throw on a number that does not fit.
  unfoldable pub serialize_qr_frame : ℕ → ℕ → List ℕ → Option (List ℕ)
  serialize_qr_frame chunks_count chunk_index chunk =
      if ltb chunks_count 256 && ltb chunk_index 256 && ltb (length chunk) 4_294_967_296
      then some
          (int16_be frame_magic ++ chunks_count ∷ chunk_index ∷ uint32_be (length chunk) ++ chunk)
      else none

  abbrev cons_text : Option (List ℕ) → Option (List (List ℕ)) → Option (List (List ℕ))
  cons_text none texts = none
  cons_text (some frame) none = none
  cons_text (some frame) (some texts) = some (to_base64_url frame ∷ texts)

  -- `for (let offset = …; offset < payload.length; offset += chunkBytes)`
  unfoldable pub frames_from : ℕ → ℕ → ℕ → ℕ → List ℕ → Option (List (List ℕ))
  unfolding to_base64_url serialize_qr_frame
  frames_from zero chunk_bytes chunks_count offset payload = some []
  frames_from (suc fuel) chunk_bytes chunks_count offset payload =
      let rest = frames_from fuel chunk_bytes chunks_count (offset + chunk_bytes) payload in
      if ltb offset (length payload)
      then cons_text
          (serialize_qr_frame chunks_count (offset / chunk_bytes)
            (take chunk_bytes (drop offset payload)))
          rest
      else some []

  -- Math.ceil(payload.length / chunkBytes)
  abbrev pub count_chunks : ℕ → List ℕ → ℕ
  count_chunks chunk_bytes payload = (length payload + chunk_bytes - 1) / chunk_bytes

  -- With a chunk of no bytes the quotient is infinite, which is over the limit too.
  abbrev frames_of : ℕ → List ℕ → Option (List (List ℕ))
  frames_of chunk_bytes payload =
      if chunk_bytes == 0 || ltb max_frames (count_chunks chunk_bytes payload)
      then none
      else frames_from (count_chunks chunk_bytes payload) chunk_bytes
          (count_chunks chunk_bytes payload) 0 payload

  unfoldable pub build_qr_frame_texts : List ℕ → ℕ → Option (List (List ℕ))
  unfolding decode_vpn_link_bytes frames_from
  build_qr_frame_texts vpn_link chunk_bytes = elim (decode_vpn_link_bytes vpn_link) [
    | none ↦ none
    | some payload ↦ frames_of chunk_bytes payload
  ]
