-- ===== src/Api/Gherkin.antt =====
-- `CollectPickles` (cucumber_cpp/library/api/Gherkin.cpp): the feature files are parsed and
-- compiled to pickles.
use amp_cucumber_cpp_runner.Prelude.{ℕ, String, Option, some, List, [], ◌∷◌, ◌++◌}
use amp_cucumber_cpp_runner.Messages.{Envelope, GherkinDocument, Pickle, ParseError}
use amp_cucumber_cpp_runner.Platform.{Platform}
use amp_cucumber_cpp_runner.World.{ok, M, pure, ◌>>=◌, ◌>>◌, broadcast}
use amp_cucumber_cpp_runner.Assemble.{PickleSource}

-- `cucumber::gherkin::ParserError`: what it says, and its location
pub record ParserError : Type 0 where
  pub what : String
  pub line : ℕ
  pub column : Option ℕ

-- What becomes of a parse: a document, or the exception that is thrown
pub data Parsed : Type 0 where
  parsed : GherkinDocument → Parsed
  composite_error : List ParserError → Parsed
  parser_error : ParserError → Parsed

-- `cucumber::gherkin`: the text of a file, the parser and the compiler. The last two draw ids from
-- the generator: they are told how many it has issued, and answer how many it has issued then.
pub record Gherkin : Type 0 where
  pub slurp : (path : String) → String
  pub parse : (uri text : String) → (issued : ℕ) → Parsed × ℕ
  pub compile : GherkinDocument → (uri : String) → (issued : ℕ) → List Pickle × ℕ

-- An operation of the library that draws ids
unfoldable pub drawing : {P : Platform} {A : Type 0} → (ℕ → A × ℕ) → M P A
drawing f w = let (a, issued) = f w.issued in (ok a, record w { issued = issued })

abbrev pub parse_error_of : String → ParserError → ParseError
parse_error_of uri error = record {
  uri = some uri;
  line = some error.line;
  column = error.column;
  message = error.what;
}

module _ {P : Platform} (gherkin : Gherkin) where
  -- The function that the compiler calls with each pickle, on `pickleSources`
  unfoldable pub add_pickles :
      GherkinDocument → List Pickle → List PickleSource → M P (List PickleSource)
  add_pickles document [] sources = pure sources
  add_pickles document (pickle ∷ pickles) sources = do
    broadcast (Envelope.pickle pickle)
    add_pickles document pickles
        (sources ++ (record { pickle = pickle; gherkin_document = document } ∷ []))

  unfoldable pub broadcast_errors : String → List ParserError → M P (Unit {0})
  broadcast_errors uri [] = pure tt
  broadcast_errors uri (error ∷ errors) = do
    broadcast (Envelope.parse_error (parse_error_of uri error))
    broadcast_errors uri errors

  -- What follows the parse of a file: its document's pickles, or the handlers of the exceptions
  unfoldable pub handle_parsed : String → Parsed → List PickleSource → M P (List PickleSource)
  handle_parsed uri (parsed document) sources = do
    broadcast (Envelope.gherkin_document document)
    pickles ← drawing (gherkin.compile document uri)
    add_pickles document pickles sources
  handle_parsed uri (composite_error errors) sources = do broadcast_errors uri errors; pure sources
  handle_parsed uri (parser_error error) sources = do
    broadcast (Envelope.parse_error (parse_error_of uri error))
    pure sources

  -- `CollectPickles`, on `pickleSources`
  unfoldable pub collect_pickles : List String → List PickleSource → M P (List PickleSource)
  collect_pickles [] sources = pure sources
  collect_pickles (path ∷ paths) sources = do
    broadcast (Envelope.source path (gherkin.slurp path))
    result ← drawing (gherkin.parse path (gherkin.slurp path))
    more ← handle_parsed path result sources
    collect_pickles paths more
