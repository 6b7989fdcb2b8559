-- ===== src/Cli/Skills/Refused.antt =====
-- When `recurse skills get` of crates/cli/src/skills.rs fails.
use recurse.Base.{
  ◌≡◌, refl, inl, inr, Bool, true, false, none, some, List, [], ◌∷◌, any, find, text_eq, Text,
  Option-cases,
}
use recurse.Base.Fallible.{returns, raises, Fallible-cases}
use recurse.Protocol.Skill.{SkillInfo}
use recurse.Cli.Skills.{SkillFiles, document, documents, find_skill}

abbrev is_missing : List SkillInfo → Text → Bool
is_missing skills name = elim (find (λ (s : SkillInfo). text_eq s.name name) skills) [
  | none ↦ true
  | some skill ↦ false
]

find_skill_sound :
    (skills : List SkillInfo) (name : Text) (skill : SkillInfo)
    → find_skill skills name ≡ returns skill
    → is_missing skills name ≡ false
unfolding find_skill
find_skill_sound skills name skill h =
    elim (Option-cases (find (λ (s : SkillInfo). text_eq s.name name) skills)) [
      | inl missing ↦ let bad = rw missing at h in cc
      | inr (found, there) ↦ rw (is_missing, there) refl
    ]

-- Nothing is printed when a skill is missing, whatever the other names are: the command fails.
documents_refused :
    (files : SkillFiles) (full : Bool) (skills : List SkillInfo) (names : List Text)
    → any (is_missing skills) names ≡ true
    → (e : Text) × (documents files full skills names ≡ raises e)
unfolding documents
documents_refused files full skills [] h = cc
documents_refused files full skills (name ∷ names) h =
    elim (Fallible-cases (find_skill skills name)) [
      | inl (e, bad) ↦ (e, rw bad refl)
      | inr (skill, good) ↦ elim (Fallible-cases (document files full skill)) [
        | inl (e, bad) ↦ (e, rw (good, bad) refl)
        | inr (text, read) ↦
            let present = find_skill_sound skills name skill good in
            let (e, later) = documents_refused files full skills names (rw present at h) in
            (e, rw (good, read, later) refl)
      ]
    ]
