-- ===== src/Client/ServiceTests.antt =====
-- The theorems of the callback service at concrete calls.
use rubetek_ios_cpp_releases.Prelude.{ℕ, ◌≡◌, refl, Bool, false, [], ◌∷◌, ◌==◌}
use rubetek_ios_cpp_releases.Client.CallbackService
use rubetek_ios_cpp_releases.Client.CallbackService.{
  on_ready, on_project_error, Call, event, on_properties_received, CallbackService, post,
  push_properties,
}
use rubetek_ios_cpp_releases.Client.CallbackService.Delivery.{pending, deliver, run_lem}

-- A client that refuses the properties 4.
abbrev refuses : Call ℕ → Bool
refuses (on_properties_received a) = a == 4
refuses _ = false

abbrev waiting : CallbackService ℕ
waiting = push_properties 4 (
    push_properties 3
      (post on_project_error 2 (post on_ready 1 (post on_ready 0 CallbackService.construct))))

run_lem_example :
    let (s', calls, r) = CallbackService.run refuses waiting in
    (calls ≡ (deliver refuses (pending waiting)).0)
    × (pending s' ≡ (deliver refuses (pending waiting)).1)
run_lem_example = run_lem refuses waiting

waiting_run :
    (CallbackService.run refuses waiting).1
    ≡ event on_project_error 2
      ∷ event on_ready 1
      ∷ on_properties_received 3
      ∷ on_properties_received 4
      ∷ []
unfolding CallbackService.run CallbackService.construct post push_properties
waiting_run = refl
