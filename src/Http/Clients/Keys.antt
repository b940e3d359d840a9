-- ===== src/Http/Clients/Keys.antt =====
-- The comparison of cache keys.
use netix_backend.Prelude.{
  ◌≡◌, refl, ◌&&◌, Bool, true, List, [], ◌∷◌, some, String, eq_iff, eq_refl, arith,
}
use netix_backend.Http.Clients.{Parts, CacheKey, same_names, same_bool, same_parts, same_key}

pub some_inj : {A : Type 0} {a b : A} → some a ≡ some b → a ≡ b
some_inj e = cc

same_names→eq : (xs ys : List String) → same_names xs ys ≡ true → xs ≡ ys
same_names→eq [] [] h = refl
same_names→eq [] (y ∷ ys) h = absurd (cc)
same_names→eq (x ∷ xs) [] h = absurd (cc)
same_names→eq (x ∷ xs) (y ∷ ys) h = ground (arith, eq_iff x y, same_names→eq xs ys)

same_names-same : (xs : List String) → same_names xs xs ≡ true
same_names-same [] = refl
same_names-same (x ∷ xs) = rw (eq_refl x) (same_names-same xs)

both : (a b : Bool) → a && b ≡ true → (a ≡ true) × (b ≡ true)
both a b h = ground arith

same_bool→eq : (a b : Bool) → same_bool a b ≡ true → a ≡ b
same_bool→eq a b h = ground arith

same_parts→eq : (p q : Parts (List String)) → same_parts p q ≡ true → p ≡ q
same_parts→eq p q h =
    let (url, h1) = both _ _ h in
    let (accept, h2) = both _ _ h1 in
    let (auth, h3) = both _ _ h2 in
    let (verify_ssl, h4) = both _ _ h3 in
    let (raise_status, timeout) = both _ _ h4 in
    λ i. record {
      url = same_names→eq p.url q.url url i;
      accept = same_names→eq p.accept q.accept accept i;
      auth = same_names→eq p.auth q.auth auth i;
      verify_ssl = same_names→eq p.verify_ssl q.verify_ssl verify_ssl i;
      raise_status = same_names→eq p.raise_status q.raise_status raise_status i;
      timeout = same_names→eq p.timeout q.timeout timeout i;
    }

-- Keys that compare as the same are equal.
pub same_key→eq : (j k : CacheKey) → same_key j k ≡ true → j ≡ k
unfolding same_key
same_key→eq j k h =
    let (cls, h1) = both _ _ h in
    let (service, h2) = both _ _ h1 in
    let (authorization, h3) = both _ _ h2 in
    let (keys, base_url) = both _ _ h3 in
    λ i. record {
      client_cls = (eq_iff j.client_cls k.client_cls).0 cls i;
      service = (eq_iff j.service k.service).0 service i;
      authorization = same_bool→eq j.authorization k.authorization authorization i;
      keys = same_parts→eq j.keys k.keys keys i;
      base_url = (eq_iff j.base_url k.base_url).0 base_url i;
    }

pub same_key-same : (k : CacheKey) → same_key k k ≡ true
unfolding same_key
same_key-same k =
    rw
      (
        eq_refl k.client_cls,
        eq_refl k.service,
        eq_refl k.base_url,
        same_names-same k.keys.url,
        same_names-same k.keys.accept,
        same_names-same k.keys.auth,
        same_names-same k.keys.verify_ssl,
        same_names-same k.keys.raise_status,
        same_names-same k.keys.timeout,
      )
      ground arith
