-- ===== src/Database/Keys.antt =====
-- What an alias holds under a key.
use netix_backend.Prelude.{
  ◌≡◌, ◌∙◌, refl, ap, sym, true, false, List, [], ◌∷◌, Option, none, some, String, str_eq,
  if◌then◌else◌, Result, ok, err, ◌>>=◌, arith, Bool-cases, Option-cases, inl, inr, ◌⊎◌, contains,
  eq_iff,
}
use netix_backend.Prelude.Dict
use netix_backend.Prelude.Dict.{
  Dict, get-set, get-pop, get-update, get-update-some, IsDistinct, keys,
}
use netix_backend.Env.{Environ}
use netix_backend.Database.{
  DatabaseError, Value, omit, from_env, literal, resolve, override, override_all, upper_keys,
  replica_of, picked, keep_key, ordered,
}

module _ {V : Type 0} (of_text : String → V) (of_dict : Dict V → V) (env : Environ) where
  override-other :
      (entry after : Dict V) (key other : String) (value : Value V)
      → str_eq key other ≡ false
      → override of_text of_dict env entry key value ≡ ok after
      → Dict.get after other ≡ Dict.get entry other
  unfolding override
  override-other entry after key other omit ne h =
      let same : Dict.pop entry key ≡ after = cc in
      sym (ap (λ d. Dict.get d other) same) ∙ get-pop entry key other ∙ rw ne refl
  override-other entry after key other (literal v) ne h =
      let same : Dict.set entry key v ≡ after = cc in
      sym (ap (λ d. Dict.get d other) same) ∙ get-set entry key other v ∙ rw ne refl
  override-other entry after key other (from_env r) ne h = by_read (resolve of_text of_dict env r) h
    where
      by_read :
          (o : Result DatabaseError V)
          → (o >>= λ v. ok (Dict.set entry key v)) ≡ ok after
          → Dict.get after other ≡ Dict.get entry other
      by_read (err e) h = absurd (cc)
      by_read (ok v) h =
          let same : Dict.set entry key v ≡ after = cc in
          sym (ap (λ d. Dict.get d other) same) ∙ get-set entry key other v ∙ rw ne refl

  override_all-other :
      (values : Dict (Value V)) (entry after : Dict V) (other : String)
      → contains (keys values) other ≡ false
      → override_all of_text of_dict env entry values ≡ ok after
      → Dict.get after other ≡ Dict.get entry other
  unfolding override_all
  override_all-other [] entry after other ne h =
      let same : entry ≡ after = cc in ap (λ d. Dict.get d other) (sym same)
  override_all-other ((key, value) ∷ values) entry after other ne h =
      by_first (override of_text of_dict env entry key value) refl h
        λ d k. override_all-other values d after other (ground arith) k
    where
      by_first :
          (o : Result DatabaseError (Dict V))
          → override of_text of_dict env entry key value ≡ o
          → (o >>= λ d. override_all of_text of_dict env d values) ≡ ok after
          → ((d : Dict V)
              → override_all of_text of_dict env d values ≡ ok after
              → Dict.get after other ≡ Dict.get d other)
          → Dict.get after other ≡ Dict.get entry other
      by_first (err x) e h ih = absurd (cc)
      by_first (ok d) e h ih = ih d h ∙ override-other entry d key other value (ground arith) e

  -- A replica has the primary's value under every key that is neither HOST, PORT nor TEST nor the
  -- upper case of an override.
  pub replica_of-other :
      (primary replica : Dict V) (host port test : Value V) (overrides : Dict (Value V))
      (other : String)
      → contains ("HOST" ∷ "PORT" ∷ "TEST" ∷ keys (upper_keys of_text of_dict env overrides)) other
        ≡ false
      → replica_of of_text of_dict env primary host port test overrides ≡ ok replica
      → Dict.get replica other ≡ Dict.get primary other
  unfolding replica_of
  replica_of-other primary replica host port test overrides other ne h =
      override_all-other
        (("HOST", host)
          ∷ ("PORT", port)
          ∷ ("TEST", test)
          ∷ upper_keys of_text of_dict env overrides)
        primary replica other ne h

  picked-none :
      (entry found : Dict V) (order : List String) (k : String)
      → Dict.get entry k ≡ none
      → Dict.get found k ≡ none
      → Dict.get (picked of_text of_dict env entry order found) k ≡ none
  unfolding picked
  picked-none entry found [] k h g = g
  picked-none entry found (key ∷ order) k h g =
      picked-none entry (keep_key of_text of_dict env found key (Dict.get entry key)) order k h
        (by_value (Dict.get entry key) refl)
    where
      by_value :
          (o : Option V)
          → Dict.get entry key ≡ o
          → Dict.get (keep_key of_text of_dict env found key o) k ≡ none
      by_value none e = g
      by_value (some v) e = get-set found key k v ∙ differs (Bool-cases (str_eq key k))
        where
          differs :
              (str_eq key k ≡ true) ⊎ (str_eq key k ≡ false)
              → (if str_eq key k then some v else Dict.get found k) ≡ none
          differs (inl same) =
              let equal : key ≡ k = (eq_iff key k).0 same in
              absurd (let bad : Dict.get entry key ≡ none = ap (Dict.get entry) equal ∙ h in cc)
          differs (inr other) = rw other g

  -- Repinning the order of the keys changes no value.
  pub ordered-get :
      (entry : Dict V) (key_order : Option (List String)) (k : String)
      → IsDistinct entry
      → Dict.get (ordered of_text of_dict env entry key_order) k ≡ Dict.get entry k
  unfolding ordered
  ordered-get entry none k d = refl
  ordered-get entry (some order) k d = elim (Option-cases (Dict.get entry k)) [
    | inl missing ↦
        get-update (picked of_text of_dict env entry order []) entry k missing
        ∙ picked-none entry [] order k missing (unfold Dict.get in refl)
        ∙ sym missing
    | inr (v, e) ↦ get-update-some (picked of_text of_dict env entry order []) entry k v d e ∙ sym e
  ]
