-- ===== src/Packet/Checksum.antt =====
-- src/probe_modules/packet.h: what a receiver's sum over the words and the checksum comes to.
use zmap_embedded_ip.Base.{ℕ, ◌+◌, ◌/◌, ◌%◌, ◌^◌, ◌<◌, ◌≡◌, ◌↔◌, ◌∙◌, List, [], ◌∷◌, u64, arith}
use zmap_embedded_ip.Packet.{add_words, in_checksum, zmap_ip_checksum, fold_carries, tcp_checksum}

-- The sum of the words, not cut.
abbrev pub word_sum : List ℕ → ℕ
word_sum [] = 0
word_sum (w ∷ words) = w + word_sum words

pub add_words-word_sum :
    (words : List ℕ) (sum : ℕ)
    → sum + word_sum words < 2 ^ 64
    → add_words sum words ≡ sum + word_sum words
unfolding add_words
add_words-word_sum [] sum h = omega arith
add_words-word_sum (w ∷ words) sum h =
    omega (arith, add_words-word_sum words (u64 (sum + w)) (omega arith))

fold_carries-verifies : (sum : ℕ) → sum < 2 ^ 32 → (sum + fold_carries sum) % 65535 ≡ 0
unfolding fold_carries
fold_carries-verifies sum h = omega arith

-- When the words of a TCP segment and of its pseudo header add up to a 32-bit number, the sum of
-- these words and of `tcp_checksum` is a multiple of 65535, as a receiver of the segment requires.
pub tcp_checksum-verifies :
    (htons : ℕ → ℕ) (len_tcp saddr daddr : ℕ) (words : List ℕ)
    → let all =
        word_sum words
        + (saddr % 2 ^ 16
            + saddr / 2 ^ 16
            + daddr % 2 ^ 16
            + daddr / 2 ^ 16
            + htons len_tcp
            + htons 6) in
      all < 2 ^ 32 → (all + tcp_checksum htons len_tcp saddr daddr words) % 65535 ≡ 0
unfolding tcp_checksum
tcp_checksum-verifies htons len_tcp saddr daddr words h =
    let pseudo : List ℕ =
      saddr % 2 ^ 16
      ∷ saddr / 2 ^ 16
      ∷ daddr % 2 ^ 16
      ∷ daddr / 2 ^ 16
      ∷ htons len_tcp
      ∷ htons 6
      ∷ [] in
    let all : ℕ =
      word_sum words
      + (saddr % 2 ^ 16
          + saddr / 2 ^ 16
          + daddr % 2 ^ 16
          + daddr / 2 ^ 16
          + htons len_tcp
          + htons 6) in
    let first : add_words 0 words ≡ word_sum words =
      omega (arith, add_words-word_sum words 0 (omega arith)) in
    let then : add_words (add_words 0 words) pseudo ≡ all =
      rw first (add_words-word_sum pseudo (word_sum words) (omega arith) ∙ omega arith) in
    rw then (fold_carries-verifies all h)

-- `zmap_ip_checksum` folds the carries only once. For words that add up to a 32-bit number, the
-- sum of the words and of the checksum is a multiple of 65535 exactly if that fold leaves no carry.
pub zmap_ip_checksum-verifies :
    (words : List ℕ)
    → word_sum words < 2 ^ 32
    → ((word_sum words + zmap_ip_checksum words) % 65535 ≡ 0)
      ↔ (word_sum words / 2 ^ 16 + word_sum words % 2 ^ 16 < 2 ^ 16)
unfolding zmap_ip_checksum in_checksum
zmap_ip_checksum-verifies words h =
    let sum : add_words 0 words ≡ word_sum words =
      omega (arith, add_words-word_sum words 0 (omega arith)) in
    rw sum (λ e. omega arith, λ l. omega arith)
