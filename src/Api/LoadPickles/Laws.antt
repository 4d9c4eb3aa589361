-- ===== src/Api/LoadPickles/Laws.antt =====
-- What `LoadPickles` answers, told from the envelopes that it broadcasts.
use mathlib.Core.Option
use amp_cucumber_cpp_runner.Prelude.{
  keep_if, All, Bool, arith, ◌≡◌, refl, ap, ◌∙◌, Option, none, some, List, [], ◌∷◌, ◌++◌, map,
}
use amp_cucumber_cpp_runner.Messages.{ParseError, Envelope, Pickle}
use amp_cucumber_cpp_runner.Platform.{Platform}
use amp_cucumber_cpp_runner.World.{World, Result, ok, err, M, ◌>>=◌}
use amp_cucumber_cpp_runner.World.Returns.{Returns, Returns-weaken, >>=-Returns}
use amp_cucumber_cpp_runner.Assemble.{PickleSource}
use amp_cucumber_cpp_runner.Api.Gherkin.{Gherkin, collect_pickles}
use amp_cucumber_cpp_runner.Api.LoadPickles.{
  Sources, listening, with_received, parse_errors_of, filter_tags, unless_errors, load_pickles,
}
use amp_cucumber_cpp_runner.Api.LoadPickles.Collects.{
  pickle_of, pickles_of, IsInput, collect_pickles-Collects,
}

map-keep_if :
    (test : Pickle → Bool) (sources : List PickleSource)
    → map pickle_of (keep_if (λ source. test source.pickle) sources)
      ≡ keep_if test (map pickle_of sources)
map-keep_if test [] = refl
map-keep_if test (source ∷ sources) = ground (arith, map-keep_if test sources)

module _ (P : Platform) where
  -- The pickles that a tag expression, where there is one, holds of
  abbrev pub tagged : Option P.TagExpression → List Pickle → List Pickle
  tagged none pickles = pickles
  tagged (some expression) pickles = keep_if (λ pickle. P.evaluate expression pickle.tags) pickles

  -- What is to be run, by the parse errors and the pickles: nothing, once there is an error.
  abbrev pub wanted : Option P.TagExpression → List ParseError → List Pickle → Option (List Pickle)
  wanted expression [] pickles = some (tagged expression pickles)
  wanted expression (error ∷ errors) pickles = none

  -- The sources that are answered hold the pickles that the envelopes ask for.
  abbrev pub IsAnswer : Option P.TagExpression → List Envelope → Option (List PickleSource) → Type 0
  IsAnswer expression events answer =
      Option.map (map pickle_of) answer
      ≡ wanted expression (parse_errors_of events) (pickles_of events)

  map-filter_tags :
      (expression : Option P.TagExpression) (sources : List PickleSource)
      → map pickle_of (filter_tags P expression sources) ≡ tagged expression (map pickle_of sources)
  map-filter_tags none sources = refl
  map-filter_tags (some expression) sources =
      map-keep_if (λ pickle. P.evaluate expression pickle.tags) sources

  map-unless_errors :
      (expression : Option P.TagExpression) (errors : List ParseError)
      (collected : List PickleSource)
      → Option.map (map pickle_of) (unless_errors P expression errors collected)
        ≡ wanted expression errors (map pickle_of collected)
  map-unless_errors expression [] collected = ap some (map-filter_tags expression collected)
  map-unless_errors expression (error ∷ errors) collected = refl

with_received-Returns :
    {P : Platform} {A : Type 0} (Q : A → List Envelope → Type 0) (sent : List Envelope)
    (r : Result A) (v : World P)
    → Returns (λ a u. Q a u.events) (r, v)
    → Returns
        (λ (a, received) u. (u.events ≡ sent ++ received) × Q a received)
        (with_received v.events r, record v { events = sent ++ v.events })
with_received-Returns Q sent (ok a) v h = (refl, h)
with_received-Returns Q sent (err e) v h = h

pub listening-Returns :
    {P : Platform} {A : Type 0} (Q : A → List Envelope → Type 0) (m : M P A) (w : World P)
    → Returns (λ a v. Q a v.events) (m (record w { events = [] }))
    → Returns (λ (a, received) v. (v.events ≡ w.events ++ received) × Q a received) (listening m w)
unfolding listening
listening-Returns Q m w h =
    let start = record w { events = [] } in
    with_received-Returns Q w.events (m start).0 (m start).1 h

module _ {P : Platform} where
  -- `LoadPickles` returns without an exception, and broadcasts nothing but the input and its parse
  -- errors. It answers no list if it broadcasts a parse error,
  -- and else the pickles that it broadcasts, in that order and once each, less those for which the
  -- tag expression does not hold.
  pub load_pickles-IsAnswer :
      (gherkin : Gherkin) (sources : Sources P) (w : World P)
      → Returns
          (λ answer v.
            (events : List Envelope) × (v.events ≡ w.events ++ events)
            × All IsInput events
            × IsAnswer P sources.tag_expression events answer)
          (load_pickles gherkin sources w)
  unfolding load_pickles ◌>>=◌
  load_pickles-IsAnswer gherkin sources w =
      let m = collect_pickles gherkin sources.paths [] in
      let start = record w { events = [] } in
      >>=-Returns
        (λ (collected, received) v.
          (v.events ≡ w.events ++ received)
          × ((map pickle_of collected ≡ pickles_of received) × All IsInput received))
        _ (listening m) _ w
        (listening-Returns
          (λ collected received.
            (map pickle_of collected ≡ pickles_of received) × All IsInput received)
          m w
          (Returns-weaken _ _ m start (collect_pickles-Collects gherkin sources.paths [] start)
            (λ collected v (events, sent, kept, input). (cc (sent, kept), rw sent input))))
        (λ (collected, received) v (sent, (kept, input)). (
          received,
          sent,
          input,
          map-unless_errors P sources.tag_expression (parse_errors_of received) collected
              ∙ ap (wanted P sources.tag_expression (parse_errors_of received)) kept,
        ))

  -- The same of a listener that receives all that is broadcast meanwhile
  pub load_pickles-received :
      (gherkin : Gherkin) (sources : Sources P) (w : World P)
      → Returns
          (λ (answer, received) v.
            (v.events ≡ w.events ++ received)
            × (All IsInput received × IsAnswer P sources.tag_expression received answer))
          (listening (load_pickles gherkin sources) w)
  load_pickles-received gherkin sources w =
      let start = record w { events = [] } in
      listening-Returns
        (λ answer received.
          All IsInput received × IsAnswer P sources.tag_expression received answer)
        (load_pickles gherkin sources) w
        (Returns-weaken _ _ (load_pickles gherkin sources) start
          (load_pickles-IsAnswer gherkin sources start)
          (λ answer v (events, sent, input, answers). rw sent (input, answers)))
