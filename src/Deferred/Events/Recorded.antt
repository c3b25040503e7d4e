-- ===== src/Deferred/Events/Recorded.antt =====
-- charmhelpers/contrib/openstack/deferred_events.py: what `save_event` makes of the files.
use charm_helpers.Prelude.{
  String, ◌≡◌, refl, sym, ap, ◌∙◌, List, [], ◌∷◌, Bool, true, false, ◌&&◌, ◌||◌, Option, none, some,
  arith, eq_iff, eq_refl, str_eq, if◌then◌else◌, any, select, map, is_some, subst, lookup, insert,
  lookup-insert, Bool-cases, inl, inr, same_text,
}
use mathlib.Core.Bool.{false≢true}
use charm_helpers.Deferred.Events.{
  ServiceEvent, matching_request, Files, deferred_events, duplicate_event_files, is_nonempty,
  save_event, get_deferred_events,
}

-- some event of the application asks for the same
pub is_recorded : String → ServiceEvent → Files → Bool
unfolding get_deferred_events
is_recorded app event files = any (matching_request event) (get_deferred_events app files)

any-select-map :
    {A B : Type 0} (g : A → B) (p : B → Bool) (q : A → Bool) (xs : List A)
    → any p (map g (select q xs)) ≡ any (λ x. q x && p (g x)) xs
any-select-map g p q [] = refl
any-select-map g p q (x ∷ xs) = elim (Bool-cases (q x)) [
  | inl h ↦ rw (h) (ap (λ r. p (g x) || r) (any-select-map g p q xs))
  | inr h ↦ rw (h) (any-select-map g p q xs)
]

is_nonempty-select-map :
    {A B : Type 0} (g : A → B) (p q : A → Bool) (xs : List A)
    → is_nonempty (map g (select p (select q xs))) ≡ any (λ x. q x && p x) xs
is_nonempty-select-map g p q [] = refl
is_nonempty-select-map g p q (x ∷ xs) = elim (Bool-cases (q x)) [
  | inl h ↦ rw (h) (elim (Bool-cases (p x)) [
    | inl k ↦ rw (k) refl
    | inr k ↦ rw (k) (is_nonempty-select-map g p q xs)
  ])
  | inr h ↦ rw (h) (is_nonempty-select-map g p q xs)
]

is_nonempty-duplicate_event_files :
    (app : String) (event : ServiceEvent) (files : Files)
    → is_nonempty (duplicate_event_files app event files) ≡ is_recorded app event files
unfolding duplicate_event_files is_recorded deferred_events get_deferred_events
is_nonempty-duplicate_event_files app event files =
    is_nonempty-select-map (λ f. f.0) (λ f. matching_request event f.1)
      (λ f. str_eq (f.1).policy_requestor_name app) files
    ∙ sym (
        any-select-map (λ f. f.1) (matching_request event)
          (λ f. str_eq (f.1).policy_requestor_name app) files)

any-insert :
    (test : ServiceEvent → Bool) (file : String) (saved : ServiceEvent) (files : Files)
    → test saved ≡ true
    → any (λ f. test f.1) (insert file saved files) ≡ true
any-insert test file saved [] h = ground (arith, h)
any-insert test file saved ((f, e) ∷ files) h =
    ground (arith, h, any-insert test file saved files h)

matching_request_self :
    (e f : ServiceEvent)
    → f.service ≡ e.service
    → f.action ≡ e.action
    → f.reason ≡ e.reason
    → matching_request e f ≡ true
unfolding matching_request
matching_request_self e f s a r = ground (
  arith,
  eq_iff e.service f.service,
  eq_iff e.action f.action,
  same_reason_of_eq e.reason f.reason (sym r),
  s,
  a,
)
  where
    same_reason_of_eq : (o p : Option String) → o ≡ p → same_text o p ≡ true
    same_reason_of_eq o p h = subst (λ p. same_text o p ≡ true) h (same o)
      where
        same : (o : Option String) → same_text o o ≡ true
        same none = refl
        same (some x) = eq_refl x

is_recorded-insert :
    (app file : String) (event : ServiceEvent) (files : Files) (saved : ServiceEvent)
    → saved.policy_requestor_name ≡ app
    → matching_request event saved ≡ true
    → is_recorded app event (insert file saved files) ≡ true
unfolding is_recorded deferred_events get_deferred_events
is_recorded-insert app file event files saved n h =
    any-select-map (λ f. f.1) (matching_request event) (λ f. str_eq (f.1).policy_requestor_name app)
      (insert file saved files)
    ∙ any-insert (λ e. str_eq e.policy_requestor_name app && matching_request event e) file saved
        files (ground (arith, h, n, eq_iff saved.policy_requestor_name app))

-- A call of `save_event` leaves the request recorded.
is_recorded-save_event :
    (app file : String) (event : ServiceEvent) (files : Files)
    → is_recorded app event (save_event app file event files) ≡ true
unfolding save_event
is_recorded-save_event app file event files =
    elim (Bool-cases (is_nonempty (duplicate_event_files app event files))) [
      | inl h ↦ rw (h, save_event) (sym (is_nonempty-duplicate_event_files app event files) ∙ h)
      | inr h ↦
          rw (h, save_event)
            (is_recorded-insert app file event files (stored app event) refl
              (matching_request_self event (stored app event) refl refl refl))
    ]
  where
    stored : String → ServiceEvent → ServiceEvent
    stored app e = record {
      timestamp = e.timestamp;
      service = e.service;
      reason = e.reason;
      action = e.action;
      policy_requestor_name = app;
      policy_requestor_type = "charm";
    }

-- A request that is recorded is not saved again.
save_event_again :
    (app file : String) (event : ServiceEvent) (files : Files)
    → is_recorded app event files ≡ true
    → save_event app file event files ≡ files
unfolding save_event
save_event_again app file event files h =
    rw (is_nonempty-duplicate_event_files app event files ∙ h, save_event) refl

-- After `save_event` an event of the application asks for the same service, action and reason;
-- saving it once more changes nothing, whatever the name of the new file; and where the name is a
-- fresh one no event that was there is lost.
pub save_event_lem :
    (app file again : String) (event : ServiceEvent) (files : Files)
    → lookup file files ≡ none
    → let saved = save_event app file event files in
      (is_recorded app event saved ≡ true)
      × (save_event app again event saved ≡ saved)
      × ((other : String)
          → is_some (lookup other files) ≡ true
          → lookup other saved ≡ lookup other files)
unfolding save_event
save_event_lem app file again event files fresh = (
  is_recorded-save_event app file event files,
  save_event_again app again event (save_event app file event files)
      (is_recorded-save_event app file event files),
  λ other there. kept other there (is_nonempty (duplicate_event_files app event files)) _,
)
  where
    kept :
        (other : String)
        → is_some (lookup other files) ≡ true
        → (b : Bool) (saved : ServiceEvent)
        → lookup other (if b then files else insert file saved files) ≡ lookup other files
    kept other there true saved = refl
    kept other there false saved = elim (Bool-cases (str_eq file other)) [
      | inl e ↦ absurd (
          none_is_not_some
            (subst (λ o. is_some (lookup o files) ≡ true) (sym ((eq_iff file other).0 e)) there))
      | inr e ↦ rw (lookup-insert file other saved files, e) refl
    ]
      where
        none_is_not_some : ¬ (is_some (lookup file files) ≡ true)
        none_is_not_some h = false≢true (sym (ap is_some fresh) ∙ h)
