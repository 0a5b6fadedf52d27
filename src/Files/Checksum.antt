-- ===== src/Files/Checksum.antt =====
-- batchkit/utils.py: sha256_checksum, the hash of a file that is read in blocks. The hash is a parameter.
use batch_processing_kit.Prelude.{
  ℕ, zero, suc, ◌≤◌, ◌≡◌, List, [], ◌∷◌, ◌++◌, String, length, take, drop, length-drop, take-drop,
  arith, ap, sym, ◌∙◌,
}

-- hashlib's object: `update` of two pieces is that of both as one.
pub record Hash : Type 1 where
  pub State : Type 0
  pub start : State
  pub update : State → List ℕ → State
  pub hexdigest : State → String
  pub update_nil : (s : State) → update s [] ≡ s
  pub update_append : (s : State) (a b : List ℕ) → update (update s a) b ≡ update s (a ++ b)

module _ (h : Hash) where
  abbrev go_on : h.State → List ℕ → h.State → h.State
  go_on s [] rest = s
  go_on s (x ∷ block) rest = rest

  -- The loop over `f.read(block_size)`, up to the first empty block, of which there is one after as
  -- many rounds as the file has bytes.
  unfoldable pub update_blocks : ℕ → ℕ → h.State → List ℕ → h.State
  update_blocks zero block_size s content = s
  update_blocks (suc rounds) block_size s content = go_on s (take block_size content) (
      update_blocks rounds block_size (h.update s (take block_size content))
        (drop block_size content))

  unfoldable pub sha256_checksum : List ℕ → ℕ → String
  sha256_checksum content block_size =
      h.hexdigest (update_blocks (length content) block_size h.start content)

  update_blocks-whole :
      (rounds n : ℕ) (s : h.State) (content : List ℕ)
      → length content ≤ rounds
      → update_blocks rounds (suc n) s content ≡ h.update s content
  unfolding update_blocks take drop
  update_blocks-whole zero n s [] enough = sym (h.update_nil s)
  update_blocks-whole zero n s (x ∷ content) enough = absurd (omega arith)
  update_blocks-whole (suc rounds) n s [] enough = sym (h.update_nil s)
  update_blocks-whole (suc rounds) n s (x ∷ content) enough =
      update_blocks-whole rounds n (h.update s (x ∷ take n content)) (drop n content)
        (omega (arith, length-drop n content))
      ∙ h.update_append s (x ∷ take n content) (drop n content)
      ∙ ap (λ c. h.update s (x ∷ c)) (take-drop n content)

  -- Whatever the block size is, if it is not zero, the checksum is the digest of the whole content.
  pub sha256_checksum-whole :
      (content : List ℕ) (n : ℕ)
      → sha256_checksum content (suc n) ≡ h.hexdigest (h.update h.start content)
  unfolding sha256_checksum
  sha256_checksum-whole content n =
      ap h.hexdigest (update_blocks-whole (length content) n h.start content (omega arith))
