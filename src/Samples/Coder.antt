-- ===== src/Samples/Coder.antt =====
-- A code of bytes as texts that its decoder undoes, for the theorems on Base64 and AES-256-GCM.
use Prim.Native.Char.{code}
use Prim.Native.String.{[] as empty, ◌∷◌ as prepend}
use sol_arch.Prelude.{
  ℕ, zero, suc, ◌+◌, String, ◌≡◌, refl, true, false, List, [], ◌∷◌, arith, eqb, append_text,
}
use sol_arch.Platform.{Platform}
use sol_arch.Crypto.Custody.RoundTrip.{OpensSealed}
use sol_arch.Samples.{platform, sealing}

-- `a` as often as the byte says, and `b`
tally : ℕ → String → String
tally zero s = append_text "b" s
tally (suc n) s = append_text "a" (tally n s)

pub encode : List ℕ → String
unfolding tally
encode [] = ""
encode (n ∷ ns) = tally n (encode ns)

pub decode_from : ℕ → String → List ℕ
decode_from n empty = []
decode_from n (prepend c s) = elim (eqb (code c) 98) [
  | true ↦ n ∷ decode_from 0 s
  | false ↦ decode_from (suc n) s
]

decode_from-tally : (m n : ℕ) (s : String) → decode_from m (tally n s) ≡ (m + n) ∷ decode_from 0 s
unfolding decode_from tally
decode_from-tally m zero s = ground arith
decode_from-tally m (suc n) s = ground (arith, decode_from-tally (suc m) n s)

decode-encode : (bytes : List ℕ) → decode_from 0 (encode bytes) ≡ bytes
unfolding encode decode_from
decode-encode [] = refl
decode-encode (n ∷ ns) = rw (decode_from-tally 0 n (encode ns), decode-encode ns) (ground arith)

abbrev pub coder : Platform
coder = record platform { base64_encode = encode; base64_decode = decode_from 0 }

pub coder_opens : OpensSealed coder sealing
coder_opens = record { opens = λ key iv aad text. refl; decodes = decode-encode }
