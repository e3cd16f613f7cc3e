-- ===== src/QrFrames/RoundTrip.antt =====
-- Reading the frames of a link gives back the bytes of the link.
use mathlib.Core.Path.{subst}
use native.Mathlib.Nat.{add-mul-div_right, zero-div, div-mul-le_self, lt-div-mul-add}
use amnezia_shared_panel.Base.{
  ℕ, zero, suc, ◌+◌, ◌-◌, ◌*◌, ◌/◌, ◌%◌, ◌≤◌, ◌<◌, ◌≡◌, refl, sym, ap, ◌∙◌, List, [], ◌∷◌, ◌++◌,
  some, length, take, drop, All, arith,
}
use amnezia_shared_panel.QrFrames.{
  to_base64_url, decode_vpn_link_bytes, serialize_qr_frame, frames_from, count_chunks,
  build_qr_frame_texts, max_frames,
}
use amnezia_shared_panel.QrFrames.Reader.{read_frame, read_frames}

module _ {A : Type 0} where
  drop-nil : (n : ℕ) → drop {A = A} n [] ≡ []
  drop-nil zero = refl
  drop-nil (suc n) = refl

  drop-drop : (m n : ℕ) (xs : List A) → drop n (drop m xs) ≡ drop (m + n) xs
  drop-drop zero n xs = let same : n ≡ 0 + n = omega arith in ap (λ k. drop k xs) same
  drop-drop (suc m) n [] = drop-nil n ∙ sym (drop-nil (suc m + n))
  drop-drop (suc m) n (x ∷ xs) =
      let same : suc (m + n) ≡ suc m + n = omega arith in
      drop-drop m n xs ∙ ap (λ k. drop k (x ∷ xs)) same

  take-drop : (n : ℕ) (xs : List A) → take n xs ++ drop n xs ≡ xs
  take-drop zero xs = refl
  take-drop (suc n) [] = refl
  take-drop (suc n) (x ∷ xs) = ap (λ rest. x ∷ rest) (take-drop n xs)

  length-take-le : (n : ℕ) (xs : List A) → length (take n xs) ≤ n
  length-take-le zero xs = omega arith
  length-take-le (suc n) [] = omega arith
  length-take-le (suc n) (x ∷ xs) = omega (arith, length-take-le n xs)

  drop-all : (n : ℕ) (xs : List A) → length xs ≤ n → drop n xs ≡ []
  drop-all zero [] h = refl
  drop-all zero (x ∷ xs) h = absurd (omega arith)
  drop-all (suc n) [] h = refl
  drop-all (suc n) (x ∷ xs) h = drop-all n xs (omega arith)

abbrev pub AreBytes : List ℕ → Type 0
AreBytes bs = All (λ b. b < 256) bs

take-AreBytes : (n : ℕ) (bs : List ℕ) → AreBytes bs → AreBytes (take n bs)
take-AreBytes zero bs h = tt
take-AreBytes (suc n) [] h = tt
take-AreBytes (suc n) (b ∷ bs) (h, hs) = (h, take-AreBytes n bs hs)

drop-AreBytes : (n : ℕ) (bs : List ℕ) → AreBytes bs → AreBytes (drop n bs)
drop-AreBytes zero bs h = h
drop-AreBytes (suc n) [] h = tt
drop-AreBytes (suc n) (b ∷ bs) (h, hs) = drop-AreBytes n bs hs

module _ (trim encode decode : List ℕ → List ℕ) where
  -- A frame that is written is one that is read.
  frame-read :
      (count index : ℕ) (chunk : List ℕ)
      → count < 256
      → index < 256
      → length chunk < 4_294_967_296
      → AreBytes chunk
      → (frame : List ℕ) × (serialize_qr_frame trim encode decode count index chunk ≡ some frame)
        × (read_frame count index frame ≡ some chunk)
        × AreBytes frame
  unfolding serialize_qr_frame
  frame-read count index chunk hc hi hl hb = (
    7
        ∷ 192
        ∷ count
        ∷ index
        ∷ length chunk / 16_777_216 % 256
        ∷ length chunk / 65_536 % 256
        ∷ length chunk / 256 % 256
        ∷ length chunk % 256
        ∷ chunk,
    ground (arith, hc, hi, hl),
    ground (arith, hc, hi, hl),
    (
      omega arith,
      (omega arith, (hc, (hi, (omega arith, (omega arith, (omega arith, (omega arith, hb))))))),
    ),
  )

  module _
      (unpadded : (bs : List ℕ)
        → AreBytes bs
        → decode (to_base64_url trim encode decode bs) ≡ bs) where
    abbrev IsFramed : ℕ → ℕ → ℕ → ℕ → List ℕ → Type 0
    IsFramed fuel chunk_bytes index offset payload =
        (texts : List (List ℕ)) × (frames_from trim encode decode fuel chunk_bytes (index + fuel)
            offset payload
          ≡ some texts)
        × (read_frames decode (index + fuel) index texts ≡ some (drop offset payload))

    last-IsFramed :
        (chunk_bytes index offset : ℕ) (payload : List ℕ)
        → length payload ≤ offset
        → IsFramed 0 chunk_bytes index offset payload
    unfolding frames_from
    last-IsFramed chunk_bytes index offset payload h =
        let same : drop offset payload ≡ [] = drop-all offset payload h in
        ([], refl, ground (arith, same))

    next-IsFramed :
        (fuel chunk_bytes index offset : ℕ) (payload : List ℕ)
        → index + suc fuel < 256
        → chunk_bytes < 4_294_967_296
        → AreBytes payload
        → offset < length payload
        → offset / chunk_bytes ≡ index
        → IsFramed fuel chunk_bytes (index + 1) (offset + chunk_bytes) payload
        → IsFramed (suc fuel) chunk_bytes index offset payload
    unfolding frames_from
    next-IsFramed fuel chunk_bytes index offset payload hc hs hb more here (texts, e, r) =
        let chunk = take chunk_bytes (drop offset payload) in
        let (frame, written, read, bytes) =
          frame-read (index + suc fuel) index chunk hc (omega (arith, hc))
            (omega (arith, hs, length-take-le chunk_bytes (drop offset payload)))
            (take-AreBytes chunk_bytes _ (drop-AreBytes offset payload hb)) in
        let same : index + 1 + fuel ≡ index + suc fuel = omega arith in
        let later : frames_from trim encode decode fuel chunk_bytes (index + suc fuel)
              (offset + chunk_bytes) payload
            ≡ some texts =
          subst
            (λ c.
              frames_from trim encode decode fuel chunk_bytes c (offset + chunk_bytes) payload
              ≡ some texts)
            same e in
        let rest : read_frames decode (index + suc fuel) (index + 1) texts
            ≡ some (drop (offset + chunk_bytes) payload) =
          subst
            (λ c.
              read_frames decode c (index + 1) texts ≡ some (drop (offset + chunk_bytes) payload))
            same r in
        let whole : chunk ++ drop (offset + chunk_bytes) payload ≡ drop offset payload =
          ap (λ tail. chunk ++ tail) (sym (drop-drop offset chunk_bytes payload))
          ∙ take-drop chunk_bytes (drop offset payload) in
        (
          to_base64_url trim encode decode frame ∷ texts,
          rw (here, written, later) (ground (arith, more)),
          rw (unpadded frame bytes, read, rest) (ap some whole),
        )

    loop-IsFramed :
        (fuel chunk_bytes index offset : ℕ) (payload : List ℕ)
        → index + fuel < 256
        → 0 < chunk_bytes
        → chunk_bytes < 4_294_967_296
        → AreBytes payload
        → offset / chunk_bytes ≡ index
        → length payload ≤ offset + fuel * chunk_bytes
        → offset + fuel * chunk_bytes < length payload + chunk_bytes
        → IsFramed fuel chunk_bytes index offset payload
    loop-IsFramed zero chunk_bytes index offset payload hc hp hs hb here enough tight =
        last-IsFramed chunk_bytes index offset payload (omega (arith, enough))
    loop-IsFramed (suc fuel) chunk_bytes index offset payload hc hp hs hb here enough tight =
        let grown : suc fuel * chunk_bytes ≡ chunk_bytes + fuel * chunk_bytes = grind arith in
        let step : (offset + 1 * chunk_bytes) / chunk_bytes ≡ offset / chunk_bytes + 1 =
          add-mul-div_right offset 1 hp in
        let one : offset + 1 * chunk_bytes ≡ offset + chunk_bytes = omega arith in
        let there : (offset + chunk_bytes) / chunk_bytes ≡ index + 1 =
          ap (λ o. o / chunk_bytes) (sym one) ∙ step ∙ ap (λ i. i + 1) here in
        next-IsFramed fuel chunk_bytes index offset payload hc hs hb (omega (arith, grown, tight))
          here
          (loop-IsFramed fuel chunk_bytes (index + 1) (offset + chunk_bytes) payload
            (omega (arith, hc)) hp hs hb there (omega (arith, grown, enough))
            (omega (arith, grown, tight)))

    -- If base64 without padding and with the two other characters decodes to the bytes that were
    -- encoded, then a link that carries a payload of bytes, which chunks of a size below 2 ^ 32
    -- cut into at most 255 parts, has frames, and a reader that checks each frame against its count,
    -- index and length puts them together to the payload.
    pub build_qr_frame_texts-reads :
        (vpn_link payload : List ℕ) (chunk_bytes : ℕ)
        → 0 < chunk_bytes
        → chunk_bytes < 4_294_967_296
        → decode_vpn_link_bytes trim encode decode vpn_link ≡ some payload
        → AreBytes payload
        → count_chunks trim encode decode chunk_bytes payload ≤ max_frames
        → (texts : List (List ℕ)) × (build_qr_frame_texts trim encode decode vpn_link chunk_bytes
            ≡ some texts)
          × (read_frames decode (count_chunks trim encode decode chunk_bytes payload) 0 texts
              ≡ some payload)
    unfolding build_qr_frame_texts
    build_qr_frame_texts-reads vpn_link payload chunk_bytes hp hs e hb few =
        let size = length payload + chunk_bytes - 1 in
        let C = count_chunks trim encode decode chunk_bytes payload in
        let below : size / chunk_bytes * chunk_bytes ≤ size = div-mul-le_self size chunk_bytes in
        let above : size < size / chunk_bytes * chunk_bytes + chunk_bytes = lt-div-mul-add hp in
        let first : 0 / chunk_bytes ≡ 0 = zero-div chunk_bytes in
        let (texts, written, read) =
          loop-IsFramed C chunk_bytes 0 0 payload (omega (arith, few)) hp hs hb first
            (omega (arith, below, above)) (omega (arith, below, above, hp)) in
        let same : 0 + C ≡ C = omega arith in
        let frames : frames_from trim encode decode C chunk_bytes C 0 payload ≡ some texts =
          subst (λ c. frames_from trim encode decode C chunk_bytes c 0 payload ≡ some texts) same
            written in
        (
          texts,
          rw (e, build_qr_frame_texts) (ground (arith, hp, few, frames)),
          subst (λ c. read_frames decode c 0 texts ≡ some payload) same read,
        )
