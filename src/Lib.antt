-- ===== src/Lib.antt =====
-- A verification development for the backend of soc-investigation-lab: from the Windows events that
-- hosts write and the rules that analysts keep in files, through the detection of suspicious events,
-- to the alerts that analysts work on.
--
-- The program's parts. The parsers turn an XML document into a raw event, and a raw event, by its
-- provider and number, into a normalized event: a record of what happened on a host, with a typed
-- context for its category and the event data that the context does not take. The loader reads a
-- library of detection rules from files of YAML below a root. A rule holds a tree of conditions on
-- the fields of events. The semantic checks decide whether each condition of a rule makes sense for
-- the categories that the rule targets; the evaluator answers with a trace, which is true, false or
-- unknown, at every node of the tree; and the engine runs a collection of rules against one event and
-- returns the matches. An alert holds a match as its evidence, and is created, acknowledged, closed,
-- given a severity and a priority, and listed in a queue. The parts meet in their data: the pipeline
-- returns events, the loader rules, the engine takes both and returns matches, and the creation of an
-- alert validates a match again.
--
-- The files, and the code that they model:
--   Common         Boolean tests, results and what holds of their values, lists, and equality as an
--                  interface
--   Python         what the source uses of Python: integers and their texts, text, stable sorting,
--                  datetimes, ipaddress values, paths, built-in exceptions, and objects by their class
--   Models/Event       backend/app/models/normalized_event.py
--   Models/Raw         backend/app/models/raw_event.py
--   Models/Condition   backend/app/models/detection.py, the condition tree (`_valid_path`,
--                      `_valid_operand`, `LeafCondition`, `_measure`, `_uses_source_data`)
--   Models/Rule, Models/Trace, Models/Match
--                      the same file, `DetectionRule`, `ConditionTrace`, `DetectionMatch`
--   Models/Alert       backend/app/models/alert.py; its constructor is Models/Alert/Construct
--   Parsers/Errors, Parsers/WindowsEvent, Parsers/WindowsSecurity, Parsers/Sysmon,
--   Parsers/Registry, Parsers/Pipeline
--                      backend/app/parsers/errors.py, windows_event.py, windows_security.py,
--                      sysmon.py, registry.py and pipeline.py
--   Parsers/Xml        the element tree; Parsers/Fields has the readers that the normalizers share, and
--                      Parsers/Outcomes and Parsers/Normalized what is proved of each of them, with
--                      Parsers/Slots for the event data that a context shows
--   Detection/Errors, Detection/Semantics, Detection/Evaluator, Detection/Engine
--                      backend/app/detection/errors.py, semantics.py, evaluator.py and engine.py
--   Detection/Loader   backend/app/detection/loader.py: Detection/Loader/Files has the paths and the
--                      discovery, Detection/Loader/Documents a text of YAML to a rule
--   Alerts/Validation, Alerts/Creation, Alerts/Lifecycle, Alerts/Policy, Alerts/Queue
--                      backend/app/alerts/_validation.py, creation.py, lifecycle.py, policy.py and
--                      queue.py; Alerts/History relates the operations
--   Workflow       the parts together
--   Tests          the theorems at concrete inputs
--
-- How the code is modelled. A class is a record and an enumeration a data type; a pydantic model is
-- a record with a Boolean function `validate_...` that says whether the model accepts the fields,
-- and for alerts also a constructor from objects of any type, in which a ValueError of a validator
-- is collected and another exception passes through. A call that may raise returns a `Result`. In
-- the evaluator and the parsers, controlled errors and built-in exceptions are told apart, and only
-- the built-in exceptions that the code names are caught. An object handed to an alert operation may
-- be a tampered copy: it is an `AlertObject`, whose fields hold any objects. Recursion is on the
-- structure of trees and lists, but for the loader's worklist of directories, which runs on fuel: one
-- unit for each directory that is read, so that one more than the number of paths below the root is
-- enough. Text is a list of code points and integers have no bound, as in Python; a text of more than
-- 4300 digits is no integer, as in Python; a datetime is a count of microseconds with a zone that may
-- raise, and a conversion to UTC outside the years 1 to 9999 is an OverflowError; an address is a
-- number, of either version.
--
-- What is taken as given: `ipaddress.ip_address`, `ipaddress.ip_network` and
-- `datetime.fromisoformat` are functions from text (`TextParsers`, `DocumentParsers`), and so is
-- `ElementTree.fromstring`, which fails only with a ParseError. The file system is a record of
-- functions (`FileSystem`), which does not change while a library is loaded; PyYAML and the reading of
-- a rule's fields by pydantic are functions (`RuleDocuments`), where a SafeLoader is a function of
-- what its `construct_mapping` checks first. Where a theorem needs that `fromisoformat` gives
-- datetimes without a zone or with a fixed offset, it says so. Deep copies have no counterpart, since
-- values do not change. The limit of Python's stack is not modelled.
--
-- What is not modelled: the texts of error messages beyond the arguments of the errors, the
-- `__init__` files, which export names, and the checks of types at the engine's boundary, which the
-- types here make impossible.
pub mod Common
pub mod Python
pub mod Models
pub mod Detection
pub mod Alerts
pub mod Tests
pub mod Parsers
pub mod Workflow
