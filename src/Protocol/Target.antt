-- ===== src/Protocol/Target.antt =====
-- crates/protocol/src/target.rs.
use recurse.Base.{
  ℕ, ◌≡◌, ◌↔◌, Bool, true, false, ◌&&◌, Option, [], ◌∷◌, ◌++◌, arith, leb, Text, codes, text_eq,
  text_eq_iff, length, find,
}

pub data TargetKind : Type 0 where
  opencode_session pi_session mcp cli : TargetKind

unfoldable pub as_str : TargetKind → Text
as_str opencode_session = codes "opencode-session"
as_str pi_session = codes "pi-session"
as_str mcp = codes "mcp"
as_str cli = codes "cli"

unfoldable pub parse : Text → Option TargetKind
parse value =
    find (λ kind. text_eq (as_str kind) value) (opencode_session ∷ pi_session ∷ mcp ∷ cli ∷ [])

abbrev pub kind_eq : TargetKind → TargetKind → Bool
kind_eq opencode_session opencode_session = true
kind_eq pi_session pi_session = true
kind_eq mcp mcp = true
kind_eq cli cli = true
kind_eq _ _ = false

pub record Target : Type 0 where
  pub kind : TargetKind
  pub id : Text

abbrev pub target_eq : Target → Target → Bool
target_eq a b = kind_eq a.kind b.kind && text_eq a.id b.id

-- The `"<kind>:<id>"` key that owns a kernel, a queue and children.
unfoldable pub key : Target → Text
key t = as_str t.kind ++ b':' ∷ t.id

-- `TARGET_ID` of bounds.rs; the id is counted in characters.
abbrev pub max_target_id : ℕ
max_target_id = 256

unfoldable pub is_valid : Target → Bool
is_valid t = leb 1 (length t.id) && leb (length t.id) max_target_id

pub target_eq_iff : (a b : Target) → (target_eq a b ≡ true) ↔ (a ≡ b)
target_eq_iff a b = (sound a b, λ e. ground (arith, refl_case a))
  where
    sound : (a b : Target) → target_eq a b ≡ true → a ≡ b
    sound a b h = ground (arith, text_eq_iff a.id b.id)

    refl_case : (a : Target) → target_eq a a ≡ true
    refl_case a = ground (arith, text_eq_iff a.id a.id)

-- Different targets have different keys.
pub key_injective : (a b : Target) → key a ≡ key b → a ≡ b
unfolding key as_str
key_injective a b h = same a.kind b.kind a.id b.id h
  where
    same :
        (k l : TargetKind) (i j : Text)
        → as_str k ++ b':' ∷ i ≡ as_str l ++ b':' ∷ j
        → ◌≡◌ {A = Target} (record { kind = k; id = i }) (record { kind = l; id = j })
    same opencode_session opencode_session i j h = ground arith
    same k l i j h = ground arith
