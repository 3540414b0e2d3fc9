-- ===== src/Detection/Loader/Rejection.antt =====
-- What `_load_file` of backend/app/detection/loader.py makes of an unsafe or broken text of YAML.
use soc_investigation_lab.Common.{String, ◌≡◌, true, ◌||◌, some, ok, err, any_of}
use soc_investigation_lab.Python.FilePath.{FilePath}
use soc_investigation_lab.Detection.Semantics.{TextParsers}
use soc_investigation_lab.Detection.Loader.Files.{
  FileSystem, Metadata, fails, is_regular, relative_path, checked_path,
}
use soc_investigation_lab.Detection.Loader.Documents.{RuleDocuments}
use soc_investigation_lab.Detection.Loader.Documents.Safety.{
  is_unsafe_event, rejection, load_document-unsafe,
}
use soc_investigation_lab.Detection.Loader.{load_file}

module _ {D : Type 0} (fs : FileSystem) (documents : RuleDocuments D) (texts : TextParsers) where
  -- A file that has a checked path, is regular and is read as a text: if an event that the parser
  -- emits for the text, before an error of YAML if there is one, is an alias, or a node with an
  -- anchor or an explicit tag, the file is rejected as `unsafe_yaml`, also if the events end in an
  -- error; if no event is and they end in an error, it is rejected as `invalid_yaml`. Both hold
  -- whatever the construction of the document would do.
  pub load_file-unsafe :
      (root path checked : FilePath) (metadata : Metadata) (content : String)
      → checked_path fs root path ≡ ok checked
      → fs.lstat checked ≡ some metadata
      → is_regular metadata.kind ≡ true
      → fs.read_text checked ≡ ok content
      → any_of is_unsafe_event (documents.parse content).0 || (documents.parse content).1 ≡ true
      → load_file fs documents texts root path
        ≡ err (fails (relative_path root path) (rejection (documents.parse content).0))
  unfolding load_file
  load_file-unsafe root path checked metadata content safe found regular read bad =
      rw (safe, found, regular, read)
        (load_document-unsafe documents texts (relative_path root path) content bad)
