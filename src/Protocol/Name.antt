-- ===== src/Protocol/Name.antt =====
-- `is_valid_name` of crates/protocol/src/lib.rs.
use recurse.Base.{ℕ, Bool, false, ◌&&◌, ◌||◌, [], ◌∷◌, leb, ◌==◌, Text, text_len, all}

abbrev pub lower_digit : ℕ → Bool
lower_digit c = (leb b'a' c && leb c b'z') || (leb b'0' c && leb c b'9')

unfoldable pub is_valid_name : Text → Bool
is_valid_name [] = false
is_valid_name (first ∷ rest) =
    leb (text_len (first ∷ rest)) 63
    && (lower_digit first && all (λ c. lower_digit c || c == b'-') rest)
