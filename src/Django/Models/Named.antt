-- ===== src/Django/Models/Named.antt =====
-- The names of a slugged row.
use netix_backend.Prelude.{
  ◌≡◌, refl, String, str_eq, eq_iff, if◌then◌else◌, Bool-cases, inl, inr, arith, ap, sym, ◌∙◌,
}
use netix_backend.Django.Models.{Names, slugged}

module _ (slugify : String → String) where
  abbrev named : String → String → String
  named name display = if str_eq name "" then slugify display else name

  abbrev displayed : String → String → String
  displayed name display = if str_eq display "" then name else display

  named_again :
      (name display : String)
      → named (named name display) (displayed (named name display) display) ≡ named name display
  named_again name display = elim (Bool-cases (str_eq name "")) [
    | inr has ↦ rw has (rw has refl)
    | inl lacks ↦ rw lacks (elim (Bool-cases (str_eq (slugify display) "")) [
      | inr slug ↦ rw slug refl
      | inl no_slug ↦ rw no_slug (elim (Bool-cases (str_eq display "")) [
        | inr shown ↦ rw shown refl
        | inl blank ↦ rw blank (
            ap slugify
              ((eq_iff (slugify display) "").0 no_slug ∙ sym ((eq_iff display "").0 blank)))
      ])
    ])
  ]

  displayed_again :
      (name display : String)
      → displayed
          (named (named name display) (displayed (named name display) display))
          (displayed (named name display) display)
        ≡ displayed (named name display) display
  displayed_again name display = rw named_again (ground (arith))

  -- Saving a slugged row again changes neither of its names, whatever the slug of a name is.
  pub slugged-slugged : (n : Names) → slugged slugify (slugged slugify n) ≡ slugged slugify n
  unfolding slugged
  slugged-slugged n = λ i. record {
    name = named_again n.name n.display_name i;
    display_name = displayed_again n.name n.display_name i;
  }
