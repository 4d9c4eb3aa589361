-- ===== src/Api/LoadPickles/Collects.antt =====
-- The pickles that `CollectPickles` answers are those that it broadcasts.
use amp_cucumber_cpp_runner.Prelude.{
  All, All-append, ◌≡◌, refl, sym, ap, String, List, [], ◌∷◌, ◌++◌, map, map-append, append_assoc,
  append-nil,
}
use amp_cucumber_cpp_runner.Messages.{Envelope, GherkinDocument, Pickle}
use amp_cucumber_cpp_runner.Platform.{Platform}
use amp_cucumber_cpp_runner.World.{World, Result, ok, err, pure, ◌>>=◌, broadcast}
use amp_cucumber_cpp_runner.World.Returns.{Returns, >>=-Returns}
use amp_cucumber_cpp_runner.Assemble.{PickleSource}
use amp_cucumber_cpp_runner.Api.Gherkin.{
  Gherkin, ParserError, Parsed, parse_error_of, parsed, composite_error, parser_error, drawing,
  add_pickles, broadcast_errors, handle_parsed, collect_pickles,
}

abbrev pub pickle_of : PickleSource → Pickle
pickle_of source = source.pickle

abbrev pub pickles_of : List Envelope → List Pickle
pickles_of [] = []
pickles_of (Envelope.pickle pickle ∷ events) = pickle ∷ pickles_of events
pickles_of (_ ∷ events) = pickles_of events

pickles_of-append : (xs ys : List Envelope) → pickles_of (xs ++ ys) ≡ pickles_of xs ++ pickles_of ys
pickles_of-append [] ys = refl
pickles_of-append (Envelope.pickle pickle ∷ xs) ys =
    ap (λ ps. pickle ∷ ps) (pickles_of-append xs ys)
pickles_of-append (_ ∷ xs) ys = pickles_of-append xs ys

-- The envelopes about the input alone: nothing is run.
abbrev pub IsInput : Envelope → Type 0
IsInput (Envelope.source uri text) = Unit
IsInput (Envelope.gherkin_document document) = Unit
IsInput (Envelope.pickle pickle) = Unit
IsInput (Envelope.parse_error error) = Unit
IsInput _ = ⊥

module _ {P : Platform} where
  -- From a state and some sources to others, with the pickles that are broadcast in between.
  abbrev pub Collects : World P → List PickleSource → List PickleSource → World P → Type 0
  Collects w sources more v =
      (events : List Envelope) × (v.events ≡ w.events ++ events)
      × (map pickle_of more ≡ map pickle_of sources ++ pickles_of events)
      × All IsInput events

  Collects-trans :
      (w v u : World P) (sources more most : List PickleSource)
      → Collects w sources more v
      → Collects v more most u
      → Collects w sources most u
  Collects-trans w v u sources more most (xs, sent, kept, input) (ys, resent, rekept, more_input) =
      (
        xs ++ ys,
        cc (sent, resent, append_assoc w.events xs ys),
        cc (
          kept,
          rekept,
          pickles_of-append xs ys,
          append_assoc (map pickle_of sources) (pickles_of xs) (pickles_of ys),
        ),
        All-append IsInput xs ys input more_input,
      )

  Returns-Collects :
      (w v : World P) (sources more : List PickleSource) (r : Result (List PickleSource) × World P)
      → Collects w sources more v
      → Returns (Collects v more) r
      → Returns (Collects w sources) r
  Returns-Collects w v sources more (ok most, u) first then_ =
      Collects-trans w v u sources more most first then_
  Returns-Collects w v sources more (err e, u) first then_ = then_

  add_pickles-Collects :
      (gherkin : Gherkin) (document : GherkinDocument) (pickles : List Pickle)
      (sources : List PickleSource) (w : World P)
      → Returns (Collects w sources) (add_pickles gherkin document pickles sources w)
  unfolding add_pickles ◌>>=◌ broadcast
  add_pickles-Collects gherkin document [] sources w =
      ([], sym (append-nil _), sym (append-nil _), tt)
  add_pickles-Collects gherkin document (pickle ∷ pickles) sources w =
      Returns-Collects w (broadcast (Envelope.pickle pickle) w).1 sources
        (sources ++ (record { pickle = pickle; gherkin_document = document } ∷ [])) _
        (Envelope.pickle pickle ∷ [], refl, map-append pickle_of sources _, (tt, tt))
        (add_pickles-Collects gherkin document pickles _ _)

  broadcast_errors-Collects :
      (gherkin : Gherkin) (uri : String) (errors : List ParserError) (sources : List PickleSource)
      (w : World P)
      → Returns (Collects w sources) ((broadcast_errors gherkin uri errors >>= λ _. pure sources) w)
  unfolding broadcast_errors ◌>>=◌ broadcast
  broadcast_errors-Collects gherkin uri [] sources w =
      ([], sym (append-nil _), sym (append-nil _), tt)
  broadcast_errors-Collects gherkin uri (error ∷ errors) sources w =
      Returns-Collects w (broadcast (Envelope.parse_error (parse_error_of uri error)) w).1 sources
        sources _
        (Envelope.parse_error (parse_error_of uri error) ∷ [], refl, sym (append-nil _), (tt, tt))
        (broadcast_errors-Collects gherkin uri errors sources _)

  handle_parsed-Collects :
      (gherkin : Gherkin) (uri : String) (result : Parsed) (sources : List PickleSource)
      (w : World P)
      → Returns (Collects w sources) (handle_parsed gherkin uri result sources w)
  unfolding handle_parsed ◌>>=◌ broadcast drawing
  handle_parsed-Collects gherkin uri (parsed document) sources w =
      Returns-Collects w (broadcast (Envelope.gherkin_document document) w).1 sources sources _
        (Envelope.gherkin_document document ∷ [], refl, sym (append-nil _), (tt, tt))
        (add_pickles-Collects gherkin document _ sources _)
  handle_parsed-Collects gherkin uri (composite_error errors) sources w =
      broadcast_errors-Collects gherkin uri errors sources w
  handle_parsed-Collects gherkin uri (parser_error error) sources w =
      (Envelope.parse_error (parse_error_of uri error) ∷ [], refl, sym (append-nil _), (tt, tt))

  pub collect_pickles-Collects :
      (gherkin : Gherkin) (paths : List String) (sources : List PickleSource) (w : World P)
      → Returns (Collects w sources) (collect_pickles gherkin paths sources w)
  unfolding collect_pickles ◌>>=◌ broadcast drawing
  collect_pickles-Collects gherkin [] sources w = ([], sym (append-nil _), sym (append-nil _), tt)
  collect_pickles-Collects gherkin (path ∷ paths) sources w =
      let text = gherkin.slurp path in
      let (result, issued) = gherkin.parse path text w.issued in
      let start = record (broadcast (Envelope.source path text) w).1 { issued = issued } in
      Returns-Collects w start sources sources _
        (Envelope.source path text ∷ [], refl, sym (append-nil _), (tt, tt))
        (>>=-Returns (Collects start sources) (Collects start sources)
          (handle_parsed gherkin path result sources) (collect_pickles gherkin paths) start
          (handle_parsed-Collects gherkin path result sources start)
          (λ more v c.
            Returns-Collects start v sources more _ c
              (collect_pickles-Collects gherkin paths more v)))
