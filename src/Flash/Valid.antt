-- ===== src/Flash/Valid.antt =====
-- When an upload token is good.
use omarchy_hardware.Common.{
  ℕ, ◌+◌, ◌*◌, ◌/◌, ◌≤◌, ◌≡◌, ◌↔◌, refl, ◌==◌, ltb, any, false, none, some, List, [], ◌∷◌, ◌++◌,
  arith, if◌then◌else◌,
}
use omarchy_hardware.Common.Text.{Text, text_eq, text_eq_iff}
use omarchy_hardware.Errors.{ok, err, invalid_token}
use omarchy_hardware.Flash.Token.{
  Upload, Python, token_ttl_seconds, mint_token, split_last, checked, compare_digest,
  check_signature, check_parts, verify_token,
}

-- What base 64 and the decimals promise.
pub record Laws (py : Python) : Type 0 where
  pub decode-encode : (bytes : List ℕ) → py.decode64 (py.encode64 bytes) ≡ some bytes
  pub parse-decimal : (n : ℕ) → py.parse_int (py.decimal n) ≡ some n
  pub decimal-dots : (n : ℕ) → any (λ c. c == b'.') (py.decimal n) ≡ false

split_last-none : (s : Text) → any (λ c. c == b'.') s ≡ false → split_last s ≡ none
unfolding split_last
split_last-none [] h = refl
split_last-none (c ∷ s) h =
    let dot : (c == b'.') ≡ false = ground (arith, h) in
    let rest : any (λ d. d == b'.') s ≡ false = ground (arith, h) in
    rw (split_last, split_last-none s rest, dot) refl

split_last-append :
    (s t : Text) → any (λ c. c == b'.') t ≡ false → split_last (s ++ (b'.' ∷ t)) ≡ some (s, t)
unfolding split_last
split_last-append [] t h = rw (split_last, split_last-none t h) refl
split_last-append (c ∷ s) t h = rw (split_last, split_last-append s t h) refl

-- A minted token is judged by its expiry and by the two payloads.
mint-verify :
    (py : Python) (laws : Laws py) (upload other : Upload) (minted now : ℕ)
    → verify_token py (mint_token py upload minted) other now ≡ (
        let expiry = minted / py.ticks_per_second + token_ttl_seconds in
        if ltb (expiry * py.ticks_per_second) now
        then checked (err invalid_token)
        else checked (
            if text_eq (py.hmac (py.payload other expiry)) (py.hmac (py.payload upload expiry))
            then ok tt
            else err invalid_token))
unfolding verify_token mint_token check_parts check_signature compare_digest
mint-verify py laws upload other minted now =
    let expiry = minted / py.ticks_per_second + token_ttl_seconds in
    rw
      (
        split_last-append (py.encode64 (py.hmac (py.payload upload expiry))) (py.decimal expiry)
            (laws.decimal-dots expiry),
        laws.parse-decimal expiry,
        laws.decode-encode (py.hmac (py.payload upload expiry)),
      )
      refl

-- A token that was minted for one upload is accepted for an upload exactly when the clock is
-- not past its expiry, 300 seconds after the second in which it was minted, and the payloads
-- of the two uploads have the same HMAC.
pub verify_token-ok_iff :
    (py : Python) (laws : Laws py) (upload other : Upload) (minted now : ℕ)
    → (verify_token py (mint_token py upload minted) other now ≡ checked (ok tt)) ↔ (
        (now ≤ (minted / py.ticks_per_second + token_ttl_seconds) * py.ticks_per_second)
        × (py.hmac (py.payload other (minted / py.ticks_per_second + token_ttl_seconds))
            ≡ py.hmac (py.payload upload (minted / py.ticks_per_second + token_ttl_seconds))))
verify_token-ok_iff py laws upload other minted now =
    rw (mint-verify py laws upload other minted now) (judged _ _ _ _)
  where
    judged :
        (end at : ℕ) (mac mac' : List ℕ)
        → ((if ltb end at
              then checked (err invalid_token)
              else checked (if text_eq mac mac' then ok tt else err invalid_token))
            ≡ checked (ok tt))
          ↔ ((at ≤ end) × (mac ≡ mac'))
    judged end at mac mac' = ground (arith, text_eq_iff mac mac')
