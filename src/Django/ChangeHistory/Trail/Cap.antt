-- ===== src/Django/ChangeHistory/Trail/Cap.antt =====
-- The length and the order of the trail.
use netix_backend.Prelude.{
  sym, subst, if◌then◌else◌, ℕ, zero, suc, ◌-◌, ◌≤◌, ◌≡◌, refl, ap, ◌∙◌, List, [], ◌∷◌, ◌++◌,
  Option, none, some, String, length, drop, length-append, length-drop, arith,
}
use netix_backend.Prelude.Int.{pos}
use netix_backend.Django.ChangeHistory.Actor.{Context, get_actor}
use netix_backend.Django.ChangeHistory.Trail.{
  Model, Row, Entry, Selection, keep_last, build_history_entry, record_entry, sync_history_snapshot,
  save, with_history, read_fields, django_save,
}
use netix_backend.Django.ChangeHistory.Trail.Deferred.{read_fields-keeps}

drop-append {ℓ} :
    {A : Type ℓ} (n : ℕ) (xs ys : List A) → n ≤ length xs → drop n (xs ++ ys) ≡ drop n xs ++ ys
drop-append zero xs ys h = refl
drop-append (suc n) [] ys h = absurd (omega arith)
drop-append (suc n) (x ∷ xs) ys h = drop-append n xs ys (omega arith)

-- The trail that a save leaves is that of the row that was given to Django.
synced-trail :
    (m : Model) (update_fields : Selection) (r : Row)
    → (sync_history_snapshot m update_fields r).change_history ≡ r.change_history
unfolding sync_history_snapshot
synced-trail m update_fields r = (read_fields-keeps m r).1

module _ (m : Model) (c : Context) (now : String) (update_fields : Selection) (r : Row) where
  abbrev pub entry : Option Entry
  entry = build_history_entry m (get_actor c) now update_fields r

  abbrev pub after : Row
  after = (save m c now update_fields r).0

  abbrev trail_with : Option Entry → List Entry
  trail_with none = r.change_history
  trail_with (some e) = keep_last m.history_max_entries (r.change_history ++ e ∷ [])

  abbrev passed_with : Option Entry → Selection
  passed_with none = update_fields
  passed_with (some e) = with_history update_fields

  recorded-trail :
      (o : Option Entry)
      → (record_entry m o update_fields (read_fields m r)).0.change_history ≡ trail_with o
  unfolding record_entry
  recorded-trail none = (read_fields-keeps m r).1
  recorded-trail (some e) =
      ap (λ l. keep_last m.history_max_entries (l ++ e ∷ [])) (read_fields-keeps m r).1

  recorded-passed :
      (o : Option Entry) → (record_entry m o update_fields (read_fields m r)).1 ≡ passed_with o
  unfolding record_entry
  recorded-passed none = refl
  recorded-passed (some e) = refl

  recorded : (o : Option Entry) → entry ≡ o → after.change_history ≡ trail_with o
  unfolding save
  recorded o h =
      synced-trail m (if r.adding then none else update_fields)
        (django_save (record_entry m entry update_fields (read_fields m r)).0)
      ∙ recorded-trail entry
      ∙ ap trail_with h

  passed : (o : Option Entry) → entry ≡ o → (save m c now update_fields r).1 ≡ passed_with o
  unfolding save
  passed o h = recorded-passed entry ∙ ap passed_with h

  -- A save that records an entry puts it behind the older ones, in their order, and drops the
  -- oldest so that no more stay than the cap, where that is positive.
  pub save_appends :
      (k : ℕ) (e : Entry)
      → m.history_max_entries ≡ pos (suc k)
      → entry ≡ some e
      → (after.change_history ≡ drop (length r.change_history - k) r.change_history ++ e ∷ [])
        × (length after.change_history ≤ suc k)
        × ((save m c now update_fields r).1 ≡ with_history update_fields)
  unfolding record_entry keep_last
  save_appends k e cap h =
      let n = length r.change_history in
      let kept : drop (length (r.change_history ++ e ∷ []) - suc k) (r.change_history ++ e ∷ [])
          ≡ drop (n - k) r.change_history ++ e ∷ [] =
        ap (λ j. drop j (r.change_history ++ e ∷ []))
          (omega (arith, length-append {0} r.change_history (e ∷ [])))
        ∙ drop-append (n - k) r.change_history (e ∷ []) (omega arith) in
      let trail =
        recorded (some e) h ∙ ap (λ z. keep_last z (r.change_history ++ e ∷ [])) cap ∙ kept in
      (
        trail,
        subst (λ l. length l ≤ suc k) (sym trail)
            (omega (
              arith,
              length-append {0} (drop (n - k) r.change_history) (e ∷ []),
              length-drop {0} (n - k) r.change_history,
            )),
        passed (some e) h,
      )

  -- A save with nothing to record leaves the trail and the `update_fields` as they are.
  pub save_unrecorded :
      entry ≡ none
      → (after.change_history ≡ r.change_history)
        × ((save m c now update_fields r).1 ≡ update_fields)
  save_unrecorded h = (recorded none h, passed none h)

  -- With a cap of 0 nothing is ever dropped.
  pub save_uncapped :
      (e : Entry)
      → m.history_max_entries ≡ pos 0
      → entry ≡ some e
      → after.change_history ≡ r.change_history ++ e ∷ []
  unfolding keep_last
  save_uncapped e cap h =
      recorded (some e) h ∙ ap (λ z. keep_last z (r.change_history ++ e ∷ [])) cap
