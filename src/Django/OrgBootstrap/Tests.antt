-- ===== src/Django/OrgBootstrap/Tests.antt =====
-- An organization that is cloned, and one whose clone is refused.
use netix_backend.Prelude.{ℕ, ◌≡◌, refl, true, [], ◌∷◌, none}
use netix_backend.Prelude.Int.{pos}
use netix_backend.Django.OrgBootstrap.{
  Body, missing, given, validate_bootstrap, validate_teardown, stats, clone_error, cloned, warned,
  refused, invalid, View, post, delete,
}
use netix_backend.Django.OrgBootstrap.Guarded.{IsGuarded, post-IsGuarded}

abbrev view : View ℕ
view = record {
  clone = λ n source run_id. clone_error "blocked";
  teardown = λ n. stats 5;
  catalog = "";
}

abbrev body : Body
body = record {
  organization_id = given (pos 4);
  source_organization_id = missing;
  run_id = missing;
}

opened : Unit {0}
unfolding post delete validate_bootstrap validate_teardown
opened = tt

blocked : post view true body ≡ (
  cloned (pos 4) (pos 0) none ∷ warned (pos 4) none "blocked" ∷ [],
  refused (pos 409) "blocked",
)
unfolding opened
blocked = refl

template : post view true (record body { organization_id = given (pos 0) }) ≡ ([], invalid)
unfolding opened
template = refl

post-IsGuarded_example : IsGuarded (post view true body) × IsGuarded (delete view true body)
post-IsGuarded_example = post-IsGuarded view true body
