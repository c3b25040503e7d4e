-- ===== src/Templating/Contexts.antt =====
-- charmhelpers/contrib/openstack/templating.py: which interfaces count as complete, and what
-- `_ows_check_generic_interfaces` of charmhelpers/contrib/openstack/utils.py makes of them.
use charm_helpers.Prelude.{
  update_dict, String, ◌≡◌, refl, ap, ap₂, ◌∙◌, List, [], ◌∷◌, Bool, true, not, ◌&&◌, ◌||◌, is_some,
  str_eq, elem, elem-append, add_once, any, All, Dict, or_else, arith, eq_iff, Bool-cases, inl, inr,
}
use charm_helpers.Workload.Interfaces.{
  Configs, HookName, meets, all_complete, check_generic_interfaces, check_generic_interfaces_iff,
}
use charm_helpers.Templating.{
  Generator, ConfigTemplate, Renderer, add_interfaces, is_context, gather, context,
  template_complete_contexts, templates_complete, complete_contexts, get_incomplete_context_data,
}

-- some generator that has the interface returns a context
pub serves : String → List Generator → Bool
serves i gs = any (λ g. is_context g.result && elem i g.interfaces) gs

-- some registered file has such a generator
pub is_served : String → Dict ConfigTemplate → Bool
unfolding serves
is_served i d = any (λ entry. serves i (entry.1).contexts) d

elem-add_once :
    (i x : String) (xs : List String) → elem i (add_once x xs) ≡ (elem i xs || str_eq i x)
elem-add_once i x xs = ground (arith, elem-append i xs (x ∷ []), eq_iff i x)

elem-add_interfaces :
    (i : String) (is complete : List String)
    → elem i (add_interfaces is complete) ≡ (elem i complete || elem i is)
unfolding add_interfaces
elem-add_interfaces i [] complete = ground arith
elem-add_interfaces i (j ∷ is) complete =
    ground (arith, elem-add_interfaces i is (add_once j complete), elem-add_once i j complete)

elem-gather :
    (i : String) (gs : List Generator) (ctxt : Dict String) (complete : List String)
    → elem i (gather gs ctxt complete).1 ≡ (elem i complete || serves i gs)
unfolding gather serves
elem-gather i [] ctxt complete = ground arith
elem-gather i (g ∷ gs) ctxt complete = elim (Bool-cases (is_context g.result)) [
  | inr h ↦ rw (h, gather) (elem-gather i gs ctxt complete)
  | inl h ↦
      rw (h, gather)
        (ground (
          arith,
          elem-gather i gs (update_dict ctxt (or_else g.result []))
              (add_interfaces g.interfaces complete),
          elem-add_interfaces i g.interfaces complete,
        ))
]

elem-template_complete_contexts :
    (i : String) (t : ConfigTemplate)
    → t.complete ≡ []
    → elem i (template_complete_contexts t).0 ≡ serves i t.contexts
unfolding template_complete_contexts context
elem-template_complete_contexts i t h =
    rw (h, template_complete_contexts)
      (elem-gather i t.contexts [] t.complete ∙ ap (λ c. elem i c || serves i t.contexts) h)

-- No template has been asked for its contexts in this hook.
unfoldable pub AllNew : Dict ConfigTemplate → Type 0
AllNew d = All (λ entry. (entry.1).complete ≡ []) d

elem-templates_complete :
    (i : String) (d : Dict ConfigTemplate)
    → AllNew d
    → elem i (templates_complete d).0 ≡ is_served i d
unfolding templates_complete is_served AllNew
elem-templates_complete i [] h = refl
elem-templates_complete i ((name, t) ∷ d) h =
    elem-append i (template_complete_contexts t).0 (templates_complete d).0
    ∙ ap₂ (λ a b. a || b) (elem-template_complete_contexts i t h.0)
        (elem-templates_complete i d h.1)

elem-complete_contexts :
    (i : String) (r : Renderer)
    → AllNew r.templates
    → elem i (complete_contexts r).0 ≡ is_served i r.templates
unfolding complete_contexts
elem-complete_contexts i r h = elem-templates_complete i r.templates h

-- the renderer as `_ows_check_generic_interfaces` sees it
unfoldable pub configs_of : Renderer → Configs
configs_of r = record {
  complete_contexts = (complete_contexts r).0;
  incomplete_context_data = get_incomplete_context_data r;
}

-- each required interface has an alternative that is served
unfoldable pub all_served : Renderer → Dict (List String) → Bool
all_served r [] = true
all_served r ((svc_type, interfaces) ∷ required) =
    any (λ i. is_served i r.templates) interfaces && all_served r required

meets-served :
    (r : Renderer) (interfaces : List String)
    → AllNew r.templates
    → meets interfaces (configs_of r).complete_contexts
      ≡ any (λ i. is_served i r.templates) interfaces
unfolding configs_of
meets-served r [] h = refl
meets-served r (i ∷ is) h = ap₂ (λ a b. a || b) (elem-complete_contexts i r h) (meets-served r is h)

all_complete-served :
    (r : Renderer) (required : Dict (List String))
    → AllNew r.templates
    → all_complete (configs_of r) required ≡ all_served r required
unfolding all_served all_complete
all_complete-served r [] h = refl
all_complete-served r ((svc_type, interfaces) ∷ required) h =
    ap₂ (λ a b. a && b) (meets-served r interfaces h) (all_complete-served r required h)

-- For a renderer that has not been asked for its contexts yet, the check of the required interfaces
-- reports a problem exactly if for some of them no generator of a registered file that has one of
-- the alternatives returns a context.
pub check-configs_of :
    (hook : HookName) (r : Renderer) (required : Dict (List String))
    → AllNew r.templates
    → is_some (check_generic_interfaces hook (configs_of r) required).0
      ≡ not (all_served r required)
check-configs_of hook r required h =
    check_generic_interfaces_iff hook (configs_of r) required
    ∙ ap not (all_complete-served r required h)
