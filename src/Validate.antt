-- ===== src/Validate.antt =====
-- src/validate.c: the words that tie an answer to its probe. `encrypt` is `aes128_encrypt_block` under
-- the key of the scan: it takes the four words of a block and gives those of the result.
use zmap_embedded_ip.Base.{ℕ, List, [], ◌∷◌, bit_xor}

unfoldable pub validate_gen_ex : (List ℕ → ℕ → ℕ) → ℕ → ℕ → ℕ → ℕ → ℕ → ℕ
validate_gen_ex encrypt input0 input1 input2 input3 =
    encrypt (input0 ∷ input1 ∷ input2 ∷ input3 ∷ [])

unfoldable pub validate_gen : (List ℕ → ℕ → ℕ) → ℕ → ℕ → ℕ → ℕ → ℕ
unfolding validate_gen_ex
validate_gen encrypt src dst dst_port = validate_gen_ex encrypt src dst dst_port 0

-- The words of two addresses, joined one by one.
unfoldable pub xor_words : List ℕ → List ℕ → List ℕ
xor_words [] ys = []
xor_words (x ∷ xs) [] = []
xor_words (x ∷ xs) (y ∷ ys) = bit_xor x y ∷ xor_words xs ys

-- Addresses are lists of four words; the port is not used.
unfoldable pub validate_gen_ipv6 : (List ℕ → ℕ → ℕ) → List ℕ → List ℕ → ℕ → ℕ → ℕ
unfolding xor_words
validate_gen_ipv6 encrypt src dst dst_port = encrypt (xor_words src dst)
