-- ===== src/Runtime/Compression.antt =====
-- The compressed runtime code (core/src/runtime/service.cpp, `uncompressCodeIfNeeded`).
use polkadot_light_client.Common.{
  ltb, ◌==◌, if◌then◌else◌, Bool-cases, if_intro, length, length-append, take, drop, replicate,
  take-append, Bytes, bytes_eq, bytes_eq→eq, ok, err, thrown, ◌>>=◌, ok-injective, ℕ, zero, suc,
  ◌-◌, ◌^◌, ◌≤◌, ◌<◌, ◌≡◌, refl, sym, ap, subst, ◌∙◌, ◌⊎◌, inl, inr, Bool, true, false, ◌&&◌, [],
  ◌∷◌, ◌++◌, append-nil, arith,
}
use polkadot_light_client.Runtime.Service.{
  decompression_error, service_error, zstd_prefix_size, zstd_prefix, code_blob_bomb_limit, Zstd,
  contentsize_error, resize, decompressed, uncompress_code_if_needed,
}
use polkadot_light_client.Utils.Hex.{overwrite}

-- `ZSTD_isError`
abbrev pub is_error : ℕ → Bool
is_error size = ltb (2 ^ 64 - 120) size

-- The documented behaviour of `ZSTD_decompress`: it writes no more than fits, and its result is the
-- number of bytes written, or an error code.
pub record ZstdLaws (zstd : Zstd) : Type 0 where
  pub fits : (capacity : ℕ) (s : Bytes) → length (zstd.decompress capacity s).0 ≤ capacity
  pub result :
      (capacity : ℕ) (s : Bytes)
      → ((zstd.decompress capacity s).1 ≡ length (zstd.decompress capacity s).0)
        ⊎ (is_error (zstd.decompress capacity s).1 ≡ true)

take-drop : (n : ℕ) (xs : Bytes) → take n xs ++ drop n xs ≡ xs
unfolding take drop
take-drop zero xs = refl
take-drop (suc n) [] = refl
take-drop (suc n) (x ∷ xs) = ap (◌∷◌ x) (take-drop n xs)

take_nil : (n : ℕ) → take {A = ℕ} n [] ≡ []
unfolding take
take_nil zero = refl
take_nil (suc n) = refl

resize_nil : (n : ℕ) → n < 2 ^ 63 → resize n [] ≡ ok (replicate n 0)
unfolding resize
resize_nil n h =
    if_intro (λ r. r ≡ ok (replicate n 0)) (ltb n (2 ^ 63))
      (λ _. let same : n - 0 ≡ n = omega arith in rw (take_nil, same) refl)
      (λ big. absurd (ground arith))

resize_front :
    (blob more : Bytes) → length blob < 2 ^ 63 → resize (length blob) (blob ++ more) ≡ ok blob
unfolding resize replicate
resize_front blob more h =
    let none_missing : length blob - length (blob ++ more) ≡ 0 =
      omega (arith, length-append blob more) in
    if_intro (λ r. r ≡ ok blob) (ltb (length blob) (2 ^ 63))
      (λ _. rw (take-append, none_missing) (ap ok (append-nil blob))) (λ big. absurd (ground arith))

resize_error : (size : ℕ) (bytes : Bytes) → is_error size ≡ true → resize size bytes ≡ thrown
unfolding resize
resize_error size bytes e =
    if_intro (λ r. r ≡ thrown) (ltb size (2 ^ 63)) (λ small. absurd (ground arith)) (λ _. refl)

limit_small : code_blob_bomb_limit < 2 ^ 63
unfolding code_blob_bomb_limit
limit_small = omega arith

-- A code with the prefix of zstd and a frame behind it.
abbrev pub IsCompressed : Bytes → Type 0
IsCompressed code = (c : ℕ) × (frame : Bytes) × (code ≡ zstd_prefix ++ c ∷ frame)

IsCompressed-if :
    (code : Bytes)
    → ltb zstd_prefix_size (length code) ≡ true
    → bytes_eq (take zstd_prefix_size code) zstd_prefix ≡ true
    → IsCompressed code
IsCompressed-if code long same = framed (drop zstd_prefix_size code) (
    sym (take-drop zstd_prefix_size code)
    ∙ ap (λ (p : Bytes). p ++ drop zstd_prefix_size code) (bytes_eq→eq _ zstd_prefix same))
  where
    too_short : ltb zstd_prefix_size (length (zstd_prefix ++ [])) ≡ true → ⊥
    too_short k = ground arith

    framed : (frame : Bytes) → code ≡ zstd_prefix ++ frame → IsCompressed code
    framed [] e = absurd (too_short (rw e at long))
    framed (c ∷ frame) e = (c, frame, e)

IsCompressed-only_if :
    (code : Bytes)
    → IsCompressed code
    → (ltb zstd_prefix_size (length code) && bytes_eq (take zstd_prefix_size code) zstd_prefix)
      ≡ true
unfolding take bytes_eq
IsCompressed-only_if code (c, frame, e) = rw e (ground arith)

module _ (zstd : Zstd) (laws : ZstdLaws zstd) where
  decompressed_lem :
      (frame : Bytes)
      → decompressed zstd frame ≡ (
          if is_error (zstd.decompress code_blob_bomb_limit frame).1
          then thrown
          else ok (zstd.decompress code_blob_bomb_limit frame).0)
  unfolding decompressed ◌>>=◌ overwrite take
  decompressed_lem frame =
      rw (resize_nil code_blob_bomb_limit limit_small)
        (elim (Bool-cases (is_error (zstd.decompress code_blob_bomb_limit frame).1)) [
          | inl e ↦ rw (e, resize_error _ _ e) refl
          | inr e ↦ elim (laws.result code_blob_bomb_limit frame) [
            | inl written ↦
                rw (e, written)
                  (resize_front _ _
                    (omega (arith, limit_small, laws.fits code_blob_bomb_limit frame)))
            | inr bad ↦ absurd (cc)
          ]
        ])

  -- A compressed runtime is what zstd makes of its frame, or DecompressionError where zstd finds no
  -- valid frame header. Where `ZSTD_decompress` reports an error, as for a frame whose content exceeds
  -- the limit of 50 MB, the error code is taken for a size, and the call ends in an exception of
  -- `resize`.
  pub uncompress_code_if_needed-append :
      (c : ℕ) (frame : Bytes)
      → uncompress_code_if_needed zstd (zstd_prefix ++ c ∷ frame) ≡ (
          if zstd.get_frame_content_size (c ∷ frame) == contentsize_error
          then err (service_error decompression_error)
          else if is_error (zstd.decompress code_blob_bomb_limit (c ∷ frame)).1
          then thrown
          else ok (zstd.decompress code_blob_bomb_limit (c ∷ frame)).0)
  unfolding uncompress_code_if_needed take drop bytes_eq
  uncompress_code_if_needed-append c frame =
      let long : ltb zstd_prefix_size (length (zstd_prefix ++ c ∷ frame)) ≡ true = ground arith in
      rw (long, decompressed_lem (c ∷ frame)) refl

  decompressed-length :
      (frame out : Bytes) → decompressed zstd frame ≡ ok out → length out ≤ code_blob_bomb_limit
  decompressed-length frame out h =
      bounded (is_error (zstd.decompress code_blob_bomb_limit frame).1)
        (sym (decompressed_lem frame) ∙ h)
    where
      bounded :
          (b : Bool)
          → (if b then thrown else ok (zstd.decompress code_blob_bomb_limit frame).0) ≡ ok out
          → length out ≤ code_blob_bomb_limit
      bounded true e = absurd (cc)
      bounded false e =
          subst (λ (o : Bytes). length o ≤ code_blob_bomb_limit) (ok-injective e)
            (laws.fits code_blob_bomb_limit frame)

  unpacked-length :
      (frame out : Bytes)
      → (if zstd.get_frame_content_size frame == contentsize_error
          then err (service_error decompression_error)
          else decompressed zstd frame)
        ≡ ok out
      → length out ≤ code_blob_bomb_limit
  unpacked-length frame out =
      if_intro (λ r. r ≡ ok out → length out ≤ code_blob_bomb_limit)
        (zstd.get_frame_content_size frame == contentsize_error) (λ _ h. absurd (cc))
        (λ _ h. decompressed-length frame out h)

  -- A runtime with the prefix of zstd and a frame never comes out longer than the limit of 50 MB, and
  -- any other comes out as it went in.
  pub uncompress_code_if_needed-length :
      (code out : Bytes)
      → uncompress_code_if_needed zstd code ≡ ok out
      → (IsCompressed code × (length out ≤ code_blob_bomb_limit))
        ⊎ ((¬ IsCompressed code) × (out ≡ code))
  unfolding uncompress_code_if_needed
  uncompress_code_if_needed-length code out h =
      elim (Bool-cases
        (ltb zstd_prefix_size (length code) && bytes_eq (take zstd_prefix_size code) zstd_prefix)) [
          | inl e ↦
              let k = rw (e, uncompress_code_if_needed) at h in
              inl (IsCompressed-if code (ground arith) (ground arith), unpacked-length _ out k)
          | inr e ↦ inr (
            λ x. cc (IsCompressed-only_if code x, e),
            ok-injective (sym (rw (e, uncompress_code_if_needed) at h)),
          )
        ]
