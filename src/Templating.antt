-- ===== src/Templating.antt =====
-- charmhelpers/contrib/openstack/templating.py: configuration files that are rendered from the
-- contexts of their generators. The generators and the template engine are arguments.
use charm_helpers.Prelude.{
  String, List, [], ◌∷◌, ◌++◌, Bool, true, false, not, ◌&&◌, ◌||◌, Option, none, some, is_some, inl,
  inr, ◌⊎◌, or_else, if◌then◌else◌, elem, add_once, Dict, update_dict, lookup, insert, keys,
  split_at, join_with,
}
use charm_helpers.Workload.Interfaces.{RelationState, Configs}
pub mod Contexts
pub mod Written
mod Tests

-- A context generator as the hook meets it: its interfaces, what a call of it returns, what
-- `get_related` answers, and the data that its last call missed.
pub record Generator : Type 0 where
  pub interfaces : List String
  pub result : Option (Dict String)
  pub get_related : Bool
  pub missing_data : List String

-- `OSConfigTemplate`
pub record ConfigTemplate : Type 0 where
  pub config_file : String
  pub contexts : List Generator
  pub complete : List String
  pub config_template : Option String

-- `OSConfigTemplate.__init__`
unfoldable pub new_template : String → List Generator → Option String → ConfigTemplate
new_template config_file contexts config_template = record {
  config_file = config_file;
  contexts = contexts;
  complete = [];
  config_template = config_template;
}

-- the interfaces that are not in the list yet, at its end
unfoldable pub add_interfaces : List String → List String → List String
add_interfaces [] complete = complete
add_interfaces (i ∷ is) complete = add_interfaces is (add_once i complete)

-- A result counts if it is a dictionary that is not empty.
abbrev pub is_context : Option (Dict String) → Bool
is_context none = false
is_context (some []) = false
is_context (some (entry ∷ d)) = true

-- the loop of `OSConfigTemplate.context`: the context so far, and the interfaces that are complete
unfoldable pub gather : List Generator → Dict String → List String → Dict String × List String
unfolding add_interfaces
gather [] ctxt complete = (ctxt, complete)
gather (g ∷ gs) ctxt complete =
    if is_context g.result
    then gather gs (update_dict ctxt (or_else g.result [])) (add_interfaces g.interfaces complete)
    else gather gs ctxt complete

-- `OSConfigTemplate.context`
unfoldable pub context : ConfigTemplate → Dict String × ConfigTemplate
unfolding gather
context t =
    let (ctxt, complete) = gather t.contexts [] t.complete in
    (ctxt, record t { complete = complete })

-- `OSConfigTemplate.complete_contexts`
unfoldable pub template_complete_contexts : ConfigTemplate → List String × ConfigTemplate
unfolding context
template_complete_contexts t = elim t.complete [
  | i ∷ is ↦ (i ∷ is, t)
  | [] ↦ let t1 = (context t).1 in (t1.complete, t1)
]

-- `OSConfigTemplate.is_string_template`
abbrev pub is_string_template : ConfigTemplate → Bool
is_string_template t = is_some t.config_template

-- `OSConfigRenderer`, of which the directory of the templates belongs to the engine
pub record Renderer : Type 0 where
  pub openstack_release : String
  pub templates : Dict ConfigTemplate

-- `register`
unfoldable pub register : String → List Generator → Option String → Renderer → Renderer
unfolding new_template
register config_file contexts config_template r = record r {
  templates = insert config_file (new_template config_file contexts config_template) r.templates;
}

-- The template engine: a template from a text, a template by its name for a release, where `none`
-- is `TemplateNotFound`, and the text that a template makes of a context.
pub record Engine : Type 1 where
  pub Template : Type 0
  pub from_string : String → Template
  pub get_template : String → String → Option Template
  pub render_template : Template → Dict String → String

-- `OSConfigException` and `TemplateNotFound`
pub data RenderError : Type 0 where
  not_registered : RenderError
  template_not_found : RenderError

abbrev pub last_or_empty : List String → String
last_or_empty [] = ""
last_or_empty (s ∷ []) = s
last_or_empty (s ∷ t ∷ ss) = last_or_empty (t ∷ ss)

-- `os.path.basename(config_file)` and `'_'.join(config_file.split('/')[1:])`
unfoldable pub basename : String → String
basename path = last_or_empty (split_at b'/' path)

unfoldable pub munged : String → String
munged path = elim (split_at b'/' path) [ [] ↦ "" | first ∷ parts ↦ join_with "_" parts ]

-- the template of a registered file
unfoldable pub find_template : (engine : Engine) → String → ConfigTemplate → Option engine.Template
unfolding basename munged
find_template engine release t = elim t.config_template [
  | some text ↦ some (engine.from_string text)
  | none ↦ elim (engine.get_template release (basename t.config_file)) [
    | some template ↦ some template
    | none ↦ engine.get_template release (munged t.config_file)
  ]
]

-- the text that a template makes of a context, if it is found
pub rendered : (engine : Engine) → Option engine.Template → Dict String → RenderError ⊎ String
rendered engine none ctxt = inl template_not_found
rendered engine (some template) ctxt = inr (engine.render_template template ctxt)

-- what `render` answers for a file, by what is registered of it
unfoldable pub answer_for : Engine → String → Option ConfigTemplate → RenderError ⊎ String
unfolding context find_template rendered
answer_for engine release none = inl not_registered
answer_for engine release (some t) = rendered engine (find_template engine release t) (context t).0

-- `render`: the text, and the renderer after it, whose template knows its complete interfaces
unfoldable pub render : Engine → String → Renderer → (RenderError ⊎ String) × Renderer
unfolding answer_for context
render engine config_file r = (
  answer_for engine r.openstack_release (lookup config_file r.templates),
  record r {
    templates = elim (lookup config_file r.templates) [
      | none ↦ r.templates
      | some t ↦ insert config_file (context t).1 r.templates
    ];
  },
)

-- the files of the machine, by their paths
abbrev pub Files : Type 0
Files = Dict String

-- `write`: the error that it raises, if any, and the renderer and the files after it
unfoldable pub write : Engine → String → Renderer × Files → Option RenderError × (Renderer × Files)
unfolding render
write engine config_file (r, files) =
    let (answer, r1) = render engine config_file r in
    elim answer [
      | inl e ↦ (some e, (r1, files))
      | inr text ↦ (none, (r1, insert config_file text files))
    ]

-- the loop of `write_all` over the names of the registered files
unfoldable pub write_each :
    Engine → List String → Renderer × Files → Option RenderError × (Renderer × Files)
unfolding write
write_each engine [] state = (none, state)
write_each engine (config_file ∷ names) state =
    let (answer, state1) = write engine config_file state in
    elim answer [ some e ↦ (some e, state1) | none ↦ write_each engine names state1 ]

-- `write_all`
unfoldable pub write_all : Engine → Renderer × Files → Option RenderError × (Renderer × Files)
unfolding write_each
write_all engine state = write_each engine (keys (state.0).templates) state

-- `set_release`
unfoldable pub set_release : String → Renderer → Renderer
set_release release r = record r { openstack_release = release }

-- `OSConfigRenderer.complete_contexts`, over the templates
unfoldable pub templates_complete : Dict ConfigTemplate → List String × Dict ConfigTemplate
unfolding template_complete_contexts
templates_complete [] = ([], [])
templates_complete ((name, t) ∷ d) =
    let (interfaces, t1) = template_complete_contexts t in
    let (rest, d1) = templates_complete d in (interfaces ++ rest, (name, t1) ∷ d1)

unfoldable pub complete_contexts : Renderer → List String × Renderer
unfolding templates_complete
complete_contexts r =
    let (interfaces, templates) = templates_complete r.templates in
    (interfaces, record r { templates = templates })

-- what is known of an interface after one more generator that has it
unfoldable pub note_generator : Generator → String → Dict RelationState → Dict RelationState
note_generator g interface states =
    let missing : Dict RelationState = elim g.missing_data [
      | [] ↦ states
      | m ∷ ms ↦ insert interface (record { related = false; missing_data = m ∷ ms }) states
    ] in
    if g.get_related
    then insert interface
        (record {
          related = true;
          missing_data = elim (lookup interface missing) [ none ↦ [] | some s ↦ s.missing_data ];
        })
        missing
    else insert interface (record { related = false; missing_data = [] }) missing

unfoldable pub note_interfaces : Generator → List String → Dict RelationState → Dict RelationState
unfolding note_generator
note_interfaces g [] states = states
note_interfaces g (i ∷ is) states =
    note_interfaces g is (if elem i g.interfaces then note_generator g i states else states)

unfoldable pub note_generators :
    List Generator → List String → Dict RelationState → Dict RelationState
unfolding note_interfaces
note_generators [] interfaces states = states
note_generators (g ∷ gs) interfaces states =
    note_generators gs interfaces (note_interfaces g interfaces states)

unfoldable pub note_templates :
    Dict ConfigTemplate → List String → Dict RelationState → Dict RelationState
unfolding note_generators
note_templates [] interfaces states = states
note_templates ((name, t) ∷ d) interfaces states =
    note_templates d interfaces (note_generators t.contexts interfaces states)

-- `get_incomplete_context_data`
unfoldable pub get_incomplete_context_data : Renderer → List String → Dict RelationState
unfolding note_templates
get_incomplete_context_data r interfaces = note_templates r.templates interfaces []
