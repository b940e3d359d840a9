-- ===== src/Discovery/Tests.antt =====
-- A minute after a snapshot expired, and the registry's entries.
use netix_backend.Prelude.{arith, ◌≡◌, refl, [], ◌∷◌, none, some}
use netix_backend.Text.{rstrip_char}
use netix_backend.Discovery.{Service, Snapshot, origins_of}
use netix_backend.Discovery.Cache.{lookup_at, thread_ends, threads_in, one_thread_at_expiry}

abbrev old : Snapshot
old = record { expires = some 100; urls = []; origins = [] }

one_thread_at_expiry_example :
    threads_in (lookup_at 130 ∷ lookup_at 131 ∷ thread_ends none ∷ lookup_at 189 ∷ []) old ≡ 1
one_thread_at_expiry_example =
    one_thread_at_expiry 100 130 (lookup_at 131 ∷ thread_ends none ∷ lookup_at 189 ∷ []) old refl
      (omega arith) (omega arith, (omega arith, tt))

abbrev portal : Service
portal = record {
  name = "portal";
  kind = "frontend";
  base_url = some "https://x//";
  internal_base_url = none;
}

origins : origins_of (portal ∷ []) ≡ "https://x" ∷ []
unfolding origins_of rstrip_char
origins = refl
