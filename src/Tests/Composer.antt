-- ===== src/Tests/Composer.antt =====
-- The composer at concrete inputs.
use agentforum.Base.{false, none, some, ◌≡◌, refl, codes, trim}
use agentforum.Api.{create_post}
use agentforum.Posts.Composer.{Composer, failed, begin, finish, post_disabled}

abbrev draft : Composer
draft = record { body = codes " hi "; reply_to = some (codes "p1"); error = none }

submit_runs :
    ((begin (codes "t1") draft).1
      ≡ some (create_post (codes "t1") (codes "hi") (some (codes "p1"))))
    × ((begin (codes "t1") (record draft { body = codes "  " })).1 ≡ none)
    × ((finish (failed none) draft).error ≡ some (codes "Could not post."))
unfolding begin finish trim
submit_runs = (refl, refl, refl)

draft_enabled : post_disabled false draft ≡ false
unfolding post_disabled trim
draft_enabled = refl
