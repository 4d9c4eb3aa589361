-- ===== src/Engine/ExecutionContext.antt =====
-- What a step or a hook can call on its `ExecutionContext`
-- (cucumber_cpp/library/engine/ExecutionContext.cpp), and a step on its `StepBase`
-- (cucumber_cpp/library/engine/Step.cpp), each as the body that makes the call and goes
-- on with `k`. `Skipped` and `Pending` do not return.
use amp_cucumber_cpp_runner.Prelude.{◌≡◌, refl, String, Option}
use amp_cucumber_cpp_runner.Messages.{PickleTable, PickleDocString}
use amp_cucumber_cpp_runner.Platform.{Platform}
use amp_cucumber_cpp_runner.Engine.Attachment.{media_type, options, log_media_type, link_media_type}
use amp_cucumber_cpp_runner.Util.Body.{
  Body, Thrown, attach, throw, nested, step_skipped, step_pending,
}
use amp_cucumber_cpp_runner.Util.Table.{
  Table, transform_table, transform_pickle_table, transform_table-transform_pickle_table,
}

module _ {P : Platform} where
  -- `Log`
  unfoldable pub log : String → Body P → Body P
  log text k = attach text (media_type log_media_type) k

  -- `Link`
  unfoldable pub link : String → Option String → Body P → Body P
  link url title k =
      attach url (options (record { media_type = link_media_type; file_name = title })) k

  -- `Skipped`
  unfoldable pub skipped : String → Body P
  skipped message = throw (step_skipped message)

  -- `Pending`
  unfoldable pub pending : String → Body P
  pending message = throw (step_pending message)

  -- `StepBase::Step`, of a text and, if they are given, a table and a doc string
  unfoldable pub nested_step :
      String → Option Table → Option PickleDocString → Body P → (Thrown → Body P) → Body P
  unfolding transform_table
  nested_step text data_table doc_string k h =
      nested
        (record { text = text; data_table = transform_table data_table; doc_string = doc_string }) k
        h

  -- A step that hands its table on asks for the nested step with the table of the feature.
  nested_step-transform_pickle_table :
      (text : String) (t : Option PickleTable) (doc_string : Option PickleDocString) (k : Body P)
      (h : Thrown → Body P)
      → nested_step text (transform_pickle_table t) doc_string k h
        ≡ nested (record { text = text; data_table = t; doc_string = doc_string }) k h
  unfolding nested_step
  nested_step-transform_pickle_table text t doc_string k h =
      rw (transform_table-transform_pickle_table t) refl
