-- ===== src/Api/LoadPickles.antt =====
-- `LoadPickles` (cucumber_cpp/library/api/LoadPickles.cpp): the pickles to run, unless a file cannot
-- be parsed.
pub mod Collects
pub mod Laws
use amp_cucumber_cpp_runner.Prelude.{
  String, Bool, true, false, Option, none, some, List, [], ◌∷◌, ◌++◌, keep_if,
}
use amp_cucumber_cpp_runner.Messages.{Envelope, ParseError}
use amp_cucumber_cpp_runner.Platform.{Platform}
use amp_cucumber_cpp_runner.World.{World, Result, ok, err, M, pure, ◌>>=◌}
use amp_cucumber_cpp_runner.Assemble.{PickleSource}
use amp_cucumber_cpp_runner.Api.Gherkin.{Gherkin, collect_pickles}

pub data Ordering : Type 0 where
  defined_order reverse_order : Ordering

-- `RunOptions::Sources`
pub record Sources (P : Platform) : Type 0 where
  pub paths : List String
  pub tag_expression : Option P.TagExpression
  pub name_regexes : List String
  pub ordering : Ordering

abbrev pub with_received : {A : Type 0} → List Envelope → Result A → Result (A × List Envelope)
with_received received (ok a) = ok (a, received)
with_received received (err e) = err e

-- `util::Listener listener{ broadcaster, … };` for the rest of a block: an operation, and with its
-- answer the envelopes that are broadcast meanwhile. No operation looks at those sent before.
unfoldable pub listening : {P : Platform} {A : Type 0} → M P A → M P (A × List Envelope)
listening m w =
    let (r, w') = m (record w { events = [] }) in
    (with_received w'.events r, record w' { events = w.events ++ w'.events })

-- What `ParseErrorListener` keeps of the envelopes that it receives
abbrev pub parse_errors_of : List Envelope → List ParseError
parse_errors_of [] = []
parse_errors_of (Envelope.parse_error error ∷ events) = error ∷ parse_errors_of events
parse_errors_of (_ ∷ events) = parse_errors_of events

module _ (P : Platform) where
  -- `remove_if`, where there is a tag expression
  abbrev pub filter_tags : Option P.TagExpression → List PickleSource → List PickleSource
  filter_tags none sources = sources
  filter_tags (some expression) sources =
      keep_if (λ source. P.evaluate expression source.pickle.tags) sources

  -- The answer, from the parse errors and the sources
  abbrev pub unless_errors :
      Option P.TagExpression → List ParseError → List PickleSource → Option (List PickleSource)
  unless_errors expression [] sources = some (filter_tags expression sources)
  unless_errors expression (error ∷ errors) sources = none

-- `LoadPickles`. The report of the errors goes to the error output alone.
unfoldable pub load_pickles :
    {P : Platform} → Gherkin → Sources P → M P (Option (List PickleSource))
unfolding collect_pickles
load_pickles {P} gherkin sources = do
  (collected, received) ← listening (collect_pickles gherkin sources.paths [])
  pure (unless_errors P sources.tag_expression (parse_errors_of received) collected)
