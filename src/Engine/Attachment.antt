-- ===== src/Engine/Attachment.antt =====
-- The attachments of cucumber_cpp/library/engine/ExecutionContext.cpp.
use amp_cucumber_cpp_runner.Prelude.{String, Option, none, some}
use amp_cucumber_cpp_runner.Messages.{Attachment, Encoding, Envelope, identity, base64}
use amp_cucumber_cpp_runner.Util.TestStepResult.{StepOrHookStarted, step_started, hook_started}
use amp_cucumber_cpp_runner.Platform.{Platform}
use amp_cucumber_cpp_runner.World.{M, broadcast}

pub record AttachOptions : Type 0 where
  pub media_type : String
  pub file_name : Option String

-- `OptionsOrMediaType`
pub data Media : Type 0 where
  media_type : String → Media
  options : AttachOptions → Media

abbrev pub log_media_type : String
log_media_type = "text/x.cucumber.log+plain"

abbrev pub link_media_type : String
link_media_type = "text/uri-list"

abbrev read_test_step_started_ids : StepOrHookStarted → Option String × Option String
read_test_step_started_ids (step_started s) = (some s.test_case_started_id, some s.test_step_id)
read_test_step_started_ids (hook_started h) = (none, none)

abbrev read_test_run_hook_started_ids : StepOrHookStarted → Option String
read_test_run_hook_started_ids (step_started s) = none
read_test_run_hook_started_ids (hook_started h) = some h.test_run_started_id

abbrev attach_options : Media → AttachOptions
attach_options (media_type m) = record { media_type = m; file_name = none }
attach_options (options o) = o

abbrev pub make_attachment : String → Encoding → Media → StepOrHookStarted → Attachment
make_attachment body encoding media started =
    let o : AttachOptions = attach_options media in
    let ids : Option String × Option String = read_test_step_started_ids started in
    record {
      body = body;
      content_encoding = encoding;
      file_name = o.file_name;
      media_type = o.media_type;
      test_case_started_id = ids.0;
      test_step_id = ids.1;
      test_run_hook_started_id = read_test_run_hook_started_ids started;
    }

abbrev pub broadcast_attachment :
    {P : Platform} → String → Encoding → Media → StepOrHookStarted → M P (Unit {0})
broadcast_attachment body encoding media started =
    broadcast (Envelope.attachment (make_attachment body encoding media started))

-- `Attach` of a text
abbrev pub attach_text : {P : Platform} → String → Media → StepOrHookStarted → M P (Unit {0})
attach_text text media started = broadcast_attachment text identity media started

-- `Attach` of a stream, which is read to its end
abbrev pub attach_data : {P : Platform} → String → Media → StepOrHookStarted → M P (Unit {0})
attach_data {P} text media started = broadcast_attachment (P.to_base64 text) base64 media started
