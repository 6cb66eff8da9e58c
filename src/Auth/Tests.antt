-- ===== src/Auth/Tests.antt =====
-- Codes and recovery codes under an HMAC that is 0 everywhere and a digest that only folds case.
use gost_webui.Prelude.{◌≡◌, refl, some, [], ◌∷◌}
use gost_webui.Prelude.Int.{pos}
use gost_webui.Model.Text.{to_lower, trim_space, itoa, all_digits}
use gost_webui.Auth.{
  Crypto, normalize_secret, counter, nth, last_byte, zeros, padded, hotp, tried_steps, first_match,
  match_with, verify,
}

abbrev pub zero_crypto : Crypto
zero_crypto = record {
  hmac_sha1 =
      λ key m. 0 ∷ 0 ∷ 0 ∷ 0 ∷ 0 ∷ 0 ∷ 0 ∷ 0 ∷ 0 ∷ 0 ∷ 0 ∷ 0 ∷ 0 ∷ 0 ∷ 0 ∷ 0 ∷ 0 ∷ 0 ∷ 0 ∷ 0 ∷ [];
  decode_base32 = λ s. some (7 ∷ []);
  sha256_hex = to_lower;
}

pub verify_at_60 : verify zero_crypto "KEY" "000000" 60 ≡ some (pos 1)
unfolding verify match_with first_match tried_steps counter hotp padded zeros nth last_byte
    trim_space all_digits normalize_secret itoa
verify_at_60 = refl

pub verify_at_120 : verify zero_crypto "KEY" "000000" 120 ≡ some (pos 3)
unfolding verify match_with first_match tried_steps counter hotp padded zeros nth last_byte
    trim_space all_digits normalize_secret itoa
verify_at_120 = refl
