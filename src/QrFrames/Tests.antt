-- ===== src/QrFrames/Tests.antt =====
-- A link of five bytes in frames of two, with an encoding that shifts each byte.
use amnezia_shared_panel.Base.{
  ℕ, ◌+◌, ◌-◌, ◌%◌, ◌<◌, ◌≡◌, refl, ap, ap₂, ◌∙◌, List, [], ◌∷◌, map, some, arith,
}
use amnezia_shared_panel.QrFrames.{
  to_base64_url, decode_vpn_link_bytes, serialize_qr_frame, frames_from, build_qr_frame_texts,
  to_url, keep_before,
}
use amnezia_shared_panel.QrFrames.Reader.{read_frames}
use amnezia_shared_panel.QrFrames.RoundTrip.{AreBytes, build_qr_frame_texts-reads}

abbrev same : List ℕ → List ℕ
same cs = cs

abbrev shift : List ℕ → List ℕ
shift bs = map (λ b. b + 100) bs

abbrev unshift : List ℕ → List ℕ
unshift cs = map (λ c. (c - 100) % 256) cs

url-shift : (b : ℕ) → to_url (b + 100) ≡ b + 100
url-shift b = ground arith

kept : (b : ℕ) (cs : List ℕ) → keep_before (b + 100) cs ≡ (b + 100) ∷ cs
kept b [] = ground arith
kept b (c ∷ cs) = refl

unpadded : (bs : List ℕ) → to_base64_url same shift unshift bs ≡ shift bs
unfolding to_base64_url
unpadded [] = refl
unpadded (b ∷ bs) = ap₂ keep_before (url-shift b) (unpadded bs) ∙ kept b (shift bs)

unshifted : (b : ℕ) → b < 256 → (b + 100 - 100) % 256 ≡ b
unshifted b h = omega arith

unshift-shift : (bs : List ℕ) → AreBytes bs → unshift (shift bs) ≡ bs
unshift-shift [] h = refl
unshift-shift (b ∷ bs) (h, hs) = ap₂ (λ x xs. x ∷ xs) (unshifted b h) (unshift-shift bs hs)

shift-unshift : (bs : List ℕ) → AreBytes bs → unshift (to_base64_url same shift unshift bs) ≡ bs
shift-unshift bs h = ap unshift (unpadded bs) ∙ unshift-shift bs h

-- "VPN://" and five characters.
abbrev link : List ℕ
link = b'V' ∷ b'P' ∷ b'N' ∷ b':' ∷ b'/' ∷ b'/' ∷ 101 ∷ 102 ∷ 103 ∷ 104 ∷ 105 ∷ []

abbrev payload : List ℕ
payload = 1 ∷ 2 ∷ 3 ∷ 4 ∷ 5 ∷ []

link_carries : decode_vpn_link_bytes same shift unshift link ≡ some payload
unfolding decode_vpn_link_bytes
link_carries = refl

three_frames :
    build_qr_frame_texts same shift unshift link 2
    ≡ some (
        shift (7 ∷ 192 ∷ 3 ∷ 0 ∷ 0 ∷ 0 ∷ 0 ∷ 2 ∷ 1 ∷ 2 ∷ [])
        ∷ shift (7 ∷ 192 ∷ 3 ∷ 1 ∷ 0 ∷ 0 ∷ 0 ∷ 2 ∷ 3 ∷ 4 ∷ [])
        ∷ shift (7 ∷ 192 ∷ 3 ∷ 2 ∷ 0 ∷ 0 ∷ 0 ∷ 1 ∷ 5 ∷ [])
        ∷ [])
unfolding build_qr_frame_texts decode_vpn_link_bytes frames_from serialize_qr_frame to_base64_url
three_frames = refl

build_qr_frame_texts-reads_example :
    (texts : List (List ℕ)) × (build_qr_frame_texts same shift unshift link 2 ≡ some texts)
    × (read_frames unshift 3 0 texts ≡ some payload)
build_qr_frame_texts-reads_example =
    build_qr_frame_texts-reads same shift unshift shift-unshift link payload 2 (omega arith)
      (omega arith) link_carries
      (omega arith, (omega arith, (omega arith, (omega arith, (omega arith, tt))))) (omega arith)
