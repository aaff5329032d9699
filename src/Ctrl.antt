-- ===== src/Ctrl.antt =====
-- The control interface: commands by line, replies that end in a byte 4. What server and client
-- share, `std::getline` and the code of other libraries that both call.
pub mod Server
pub mod Client
pub mod Replies
pub mod Lines
pub mod RoundTrip
pub mod Unknown
use libservice.Prelude.{
  ℕ, arith, Text, Bool, true, false, Option, none, some, List, [], ◌∷◌, ◌++◌, ◌==◌, ◌≡◌,
  if◌then◌else◌, All,
}

abbrev pub newline : ℕ
newline = 10

-- The byte that ends a reply block.
abbrev pub end_of_block : ℕ
end_of_block = 4

-- `std::getline`: the text before the delimiter, which is taken away, and the text that is left.
unfoldable pub getline : ℕ → Text → Text × Text
getline d [] = ([], [])
getline d (c ∷ s) = let rest = getline d s in if c == d then ([], s) else (c ∷ rest.0, rest.1)

-- A text without a byte.
abbrev pub Without : ℕ → Text → Type 0
Without d = All (λ c. (c == d) ≡ false)

-- What the program takes from Boost and from its utility library: `split` at newlines,
-- `starts_with`, and `separated_values::split` at spaces and tabs.
pub record Strings : Type 0 where
  pub split_lines : Text → List Text
  pub starts_with : Text → Text → Bool
  pub split_words : Text → List Text

-- The documented behaviour of `split` by one character with no compression of adjacent delimiters,
-- and of `starts_with`.
pub record StringLaws (lib : Strings) : Type 0 where
  pub split_last : (s : Text) → Without newline s → lib.split_lines s ≡ s ∷ []
  pub split_next :
      (s t : Text) → Without newline s → lib.split_lines (s ++ newline ∷ t) ≡ s ∷ lib.split_lines t
  pub starts : (p s : Text) → lib.starts_with (p ++ s) p ≡ true
  pub starts_only : (s p : Text) → lib.starts_with s p ≡ true → (t : Text) × (s ≡ p ++ t)

pub getline-append : (d : ℕ) (s t : Text) → Without d s → getline d (s ++ d ∷ t) ≡ (s, t)
unfolding getline
getline-append d [] t h = ground arith
getline-append d (c ∷ s) t h = ground (arith, getline-append d s t h.1)

pub Without-append : (d : ℕ) (s t : Text) → Without d s → Without d t → Without d (s ++ t)
Without-append d [] t h k = k
Without-append d (c ∷ s) t h k = (h.0, Without-append d s t h.1 k)
