-- ===== src/Django/Exceptions/Consistent.antt =====
-- netix_backend/django/exceptions.py: what the consistent envelope shows of an error's details, each
-- text once, in order, behind the name of its field.

use netix_backend.Prelude.{
  ap, sym, ℕ, suc, ◌≡◌, ◌≢◌, ◌⊎◌, inl, inr, refl, ap₂, ◌∙◌, List, [], ◌∷◌, ◌++◌, String, str_eq,
  if◌then◌else◌,
}
use netix_backend.Django.Exceptions.{
  Detail, text, null, other, sequence, collection, mapping, Items, nil, cons, Entries, end, entry,
}
use netix_backend.Django.Exceptions.Messages.{
  Kind, validation_error, http404, database_error, other_error, Raised, detail_of, key_path,
  index_path, leaf_message, iter_consistent_messages, iter_entries, iter_items, consistent_messages,
  consistent_by_kind,
}
use netix_backend.Django.Exceptions.Located.{
  Step, at_key, at_index, step_name, messages_shown, below, holds_values, messages_shown-below,
  messages_shown-append, leaf-messages_shown, key-step, index-step,
}

abbrev pub leaf_texts : String → List String
leaf_texts s = if str_eq s "" then [] else s ∷ []

leaf_message_plain : (s : String) → leaf_message s "" ≡ leaf_texts s
leaf_message_plain s = refl

module _ (repr : Detail → String) where
  -- The texts that a payload holds, depth first; a null and an empty text have none.
  unfoldable mutual
    pub leaves : Detail → List String
    leaves (mapping es) = leaves_of_entries es
    leaves (sequence ds) = leaves_of_items ds
    leaves null = []
    leaves (text s) = leaf_texts s
    leaves (other s t) = leaf_texts s
    leaves (collection ds) = leaf_texts (repr (collection ds))

    pub leaves_of_entries : Entries → List String
    leaves_of_entries end = []
    leaves_of_entries (entry k d es) = leaves d ++ leaves_of_entries es

    pub leaves_of_items : Items → List String
    leaves_of_items nil = []
    leaves_of_items (cons d ds) = leaves d ++ leaves_of_items ds

  -- The texts that a payload holds, each with the way to it.
  unfoldable mutual
    pub located : Detail → List (List Step × String)
    located (mapping es) = located_entries es
    located (sequence ds) = located_items ds 0
    located null = []
    located (text s) = ([], s) ∷ []
    located (other s t) = ([], s) ∷ []
    located (collection ds) = ([], repr (collection ds)) ∷ []

    pub located_entries : Entries → List (List Step × String)
    located_entries end = []
    located_entries (entry k d es) = below (at_key k) (located d) ++ located_entries es

    pub located_items : Items → ℕ → List (List Step × String)
    located_items nil n = []
    located_items (cons d ds) n =
        below (at_index n (holds_values d)) (located d) ++ located_items ds (suc n)

  -- No dict names a field: its keys are DRF's generic ones.
  unfoldable mutual
    pub IsPlain : Detail → Type 0
    IsPlain (mapping es) = PlainEntries es
    IsPlain (sequence ds) = PlainItems ds
    IsPlain _ = Unit

    pub PlainEntries : Entries → Type 0
    PlainEntries end = Unit
    PlainEntries (entry k d es) = ((k ≡ "detail") ⊎ (k ≡ "message")) × IsPlain d × PlainEntries es

    pub PlainItems : Items → Type 0
    PlainItems nil = Unit
    PlainItems (cons d ds) = IsPlain d × PlainItems ds

  under :
      (d : Detail) (path child : String) (step : Step)
      → child ≡ step_name path step
      → iter_consistent_messages repr d child ≡ messages_shown child (located d)
      → iter_consistent_messages repr d child ≡ messages_shown path (below step (located d))
  under d path child step e h =
      h
      ∙ ap (λ p. messages_shown p (located d)) e
      ∙ sym (messages_shown-below path step (located d))

  mutual
    unfolding located located_entries located_items iter_consistent_messages iter_entries iter_items

    iter-located :
        (d : Detail) (path : String)
        → iter_consistent_messages repr d path ≡ messages_shown path (located d)
    iter-located (mapping es) path = entries-located es path
    iter-located (sequence ds) path = items-located ds 0 path
    iter-located null path = refl
    iter-located (text s) path = leaf-messages_shown s path
    iter-located (other s t) path = leaf-messages_shown s path
    iter-located (collection ds) path = leaf-messages_shown (repr (collection ds)) path

    entries-located :
        (es : Entries) (path : String)
        → iter_entries repr es path ≡ messages_shown path (located_entries es)
    entries-located end path = refl
    entries-located (entry k d es) path =
        ap₂ (λ xs ys. xs ++ ys)
          (under d path (key_path path k) (at_key k) (key-step path k)
            (iter-located d (key_path path k)))
          (entries-located es path)
        ∙ sym (messages_shown-append path (below (at_key k) (located d)) (located_entries es))

    items-located :
        (ds : Items) (n : ℕ) (path : String)
        → iter_items repr ds n path ≡ messages_shown path (located_items ds n)
    items-located nil n path = refl
    items-located (cons d ds) n path =
        ap₂ (λ xs ys. xs ++ ys)
          (under d path (index_path path n d) (at_index n (holds_values d)) (index-step path n d)
            (iter-located d (index_path path n d)))
          (items-located ds (suc n) path)
        ∙ sym (
            messages_shown-append path (below (at_index n (holds_values d)) (located d))
              (located_items ds (suc n)))

  mutual
    unfolding leaves leaves_of_entries leaves_of_items iter_consistent_messages iter_entries
        iter_items IsPlain PlainEntries PlainItems

    iter_plain : (d : Detail) → IsPlain d → iter_consistent_messages repr d "" ≡ leaves d
    iter_plain (mapping es) h = entries_plain es h
    iter_plain (sequence ds) h = items_plain ds 0 h
    iter_plain null h = refl
    iter_plain (text s) h = refl
    iter_plain (other s t) h = refl
    iter_plain (collection ds) h = refl

    entries_plain :
        (es : Entries) → PlainEntries es → iter_entries repr es "" ≡ leaves_of_entries es
    entries_plain end h = refl
    entries_plain (entry k d es) (inl e, p, h) =
        rw e (ap₂ (λ xs ys. xs ++ ys) (iter_plain d p) (entries_plain es h))
    entries_plain (entry k d es) (inr e, p, h) =
        rw e (ap₂ (λ xs ys. xs ++ ys) (iter_plain d p) (entries_plain es h))

    items_plain :
        (ds : Items) (index : ℕ) → PlainItems ds → iter_items repr ds index "" ≡ leaves_of_items ds
    items_plain nil index h = refl
    items_plain (cons d ds) index (p, h) =
        ap₂ (λ xs ys. xs ++ ys) (iter_plain d p) (items_plain ds (suc index) h)

  by_detail :
      (exc : Raised)
      → exc.kind ≢ http404
      → consistent_messages repr exc ≡ iter_consistent_messages repr (detail_of exc) ""
  unfolding consistent_messages
  by_detail exc h = by_kind exc.kind h
    where
      by_kind :
          (k : Kind)
          → k ≢ http404
          → consistent_by_kind repr exc k ≡ iter_consistent_messages repr (detail_of exc) ""
      by_kind http404 h = absurd (h refl)
      by_kind validation_error h = refl
      by_kind database_error h = refl
      by_kind other_error h = refl

  -- For any exception but Http404, the consistent envelope shows every text of the error's details
  -- that is not empty, in order and once, and nothing else: behind the name of its field, which is
  -- made of the keys and the indices on the way to it, or alone where they name none.
  pub consistent_messages-located :
      (exc : Raised)
      → exc.kind ≢ http404
      → consistent_messages repr exc ≡ messages_shown "" (located (detail_of exc))
  consistent_messages-located exc h = by_detail exc h ∙ iter-located (detail_of exc) ""

  -- Details that name no field are shown by their texts alone.
  pub consistent_messages-IsPlain :
      (exc : Raised)
      → exc.kind ≢ http404
      → IsPlain (detail_of exc)
      → consistent_messages repr exc ≡ leaves (detail_of exc)
  consistent_messages-IsPlain exc h p = by_detail exc h ∙ iter_plain (detail_of exc) p
