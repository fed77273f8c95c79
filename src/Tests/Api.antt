-- ===== src/Tests/Api.antt =====
-- The endpoints at concrete inputs.
use agentforum.Base.{not, inl, inr, none, some, ◌≡◌, refl, codes}
use agentforum.Widgets.Values.{end}
use agentforum.Api.{
  Request, put, CreateThread, create_thread, list_threads, list_subforums, watch_subforum, query,
}
use agentforum.Api.Refetched.{
  threads, thread_counts, Among, changed_by, shown_by, is_untagged, fetched_again,
  fetched_again-Among,
}

abbrev new_thread : CreateThread
new_thread = record {
  subforum_key = codes "dev";
  title = codes "Hello";
  body = codes "First";
  metadata = none;
  watch = none;
  idempotency_key = none;
}

abbrev watch_path : Request
watch_path = record {
  url = codes "/subforums/a%2Fb%3F/watch";
  method = put;
  params = end;
  body = none;
}

watch_run : query none (watch_subforum (codes "a/b?")) ≡ some watch_path
unfolding query
watch_run = refl

threads_changed : Among threads (changed_by (create_thread new_thread))
unfolding changed_by
threads_changed = inl refl

threads_shown : Among threads (shown_by (list_threads none none none))
unfolding shown_by
threads_shown = inl refl

fetched_again-Among_example :
    fetched_again (create_thread new_thread) (list_threads none none none)
    ≡ not (is_untagged (list_threads none none none))
fetched_again-Among_example =
    fetched_again-Among (create_thread new_thread) (list_threads none none none) threads
      threads_changed threads_shown (λ e. absurd (cc e))

counts_shown : Among thread_counts (shown_by list_subforums)
unfolding shown_by
counts_shown = inr (inl refl)
