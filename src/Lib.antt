-- ===== src/Lib.antt =====
-- A model of the core of the Kytos SDN controller (kytos/core/), with theorems about it.
--
-- The controller keeps switches, their interfaces and the links between interfaces. An interface
-- owns a pool of VLAN tags, which circuits take and give back; a link hands out tags that both of its
-- interfaces have. The parts and their files:
--
-- - Prelude, Errors, Dict: shared names; the exceptions of kytos/core/exceptions.py and of Python as
--   values of `Result`; Python's dicts as association lists in the order of insertion.
-- - TagRanges: kytos/core/tag_ranges.py. A list of tags is a list of ranges `[lo, hi]`. The set
--   operations are functions of the same names; the loops with two indices are recursions on what
--   stands behind the indices. `range_addition` has fuel for its outer loop, the number of ranges,
--   of which every round passes at least one: the theorem about it has no hypothesis on fuel.
--   TagRanges/Meaning says which tags a list covers and what an ordered list is: each range begins
--   at least two behind the end of the one before it. TagRanges/Validated is `get_tag_ranges` and
--   its relatives, TagRanges/Position is `find_index_remove` and `find_index_add`; `bisect_left` of
--   the standard library is read as the first position that is not smaller.
-- - Interface: the tags of kytos/core/interface.py. The state is the four dicts of an `Interface` and
--   the events put by `_notify_interface_tags`; a method is an action that returns or raises and
--   keeps what it has changed by then. Interface/UseTags is `use_tags`, Interface/MakeAvailable is
--   `make_tags_available`, Interface/Resize is `_remove_tags` and `_add_tags`, Interface/Restrict has
--   the restrictions, Interface/Endpoints the list of endpoints, Interface/Uni the validity of a UNI,
--   Interface/Speed the speed and `update_link`.
--   `list(set)` has no fixed order in Python; the model keeps the given one.
-- - Ids: kytos/core/id.py. The digest of the library and the text of an interface id are parameters.
-- - Link: kytos/core/link.py. The tags are on the pools of the two endpoints; the creation and the
--   status are on what these read of an endpoint.
-- - Entity: kytos/core/common.py, and the `status` with registered functions of interfaces, links
--   and switches. Metadata values are of any type.
-- - Switch, Clock: the connection, flood table, MAC table and interfaces (Switch/Ports) of
--   kytos/core/switch.py; times are microseconds, and a difference of times has the fields of Python's `timedelta`.
-- - Events, Buffers: the order of kytos/core/events.py and the buffer of kytos/core/buffers/buffers.py.
--   The queue inside is of the library janus; its put and get are parameters, of which nothing is
--   assumed. Buffers/Manager makes the buffers from their configuration (manager.py and factory.py).
-- - DeadLetter: kytos/core/dead_letter.py, with the two buffers that events are put back into. The
--   handlers get payloads that pydantic has validated; a raised HTTPException is a value. Python
--   refuses to go on with an iterator over a dict that has changed its size, and the two handlers
--   that do so are modelled with the RuntimeError.
-- - QueueMonitor: the window of kytos/core/queue_monitor.py; `now()` within one call is one time.
--
-- - Table: Python's dicts with other keys than text.
-- - Connection: kytos/core/connection.py. What `write` and `close` do to the transport, and whether
--   they raise an OSError, are parameters.
-- - Interface/Reach: the calls that change the VLANs of an interface as steps of a relation, and steps on
--   sets of tags, one for each of the four methods. The calls for other tag types and for special
--   tags are not among the steps: they leave these lists of VLANs alone.
-- - Controller: kytos/core/controller.py. Controller/Switches has the connections and switches; a
--   connection is an object that a number stands for. Controller/Lookup is `get_interface_by_id`,
--   with the interfaces of Switch/Ports.
--   Controller/Listeners is `notify_listeners` and `event_handler`; the loop has fuel, of which one
--   unit is used for each event, so the number of events up to the one that shuts the buffer down is
--   enough. Controller/MsgOut is
--   `msg_out_event_handler`. Controller/Napps loads, unloads and reloads NApps, with the routes of ApiServer; what the
--   code of a NApp does is a parameter.
-- - NappBase: kytos/core/napps/base.py. The loop of `run` has fuel, one unit for each round;
--   what `execute` raises is logged or ends it.
-- - NappsManager: `enable`, `disable` and `uninstall` of kytos/core/napps/manager.py over what the two
--   folders hold. The fuel is the depth of the calls, which Python bounds with a RecursionError.
-- - ApiServer: the routes of kytos/core/api_server.py, in the order in which they are added.
-- - Auth: kytos/core/auth.py and kytos/core/user.py. The collection of users is a parameter; the laws
--   that a theorem needs of it are those of a unique index and of an update of one document.
-- - Pacing: kytos/core/pacing.py. The limiters, the clock and the sleep are parameters; the loops of
--   `hit` and `ahit` have fuel, one unit for each try, and two are enough for a limiter that admits
--   once the reset that it reports has come.
--
-- Tags are natural numbers: negative integers, which Python would take, are not modelled. A list of
-- tags holds integers and lists of at most two integers, and with `check_order` off it holds pairs: the
-- code accepts longer lists too and fails when it unpacks them later. The lists of the two endpoints of
-- a link are separate values: that `make_tags_available` of a link may let both share one list, which is
-- then changed in place, is not modelled. The locks
-- are not modelled: an action is what runs under the lock. The texts of messages and log lines are
-- not kept. Not modelled, since they are mostly calls of libraries: threads and sockets, the serving of
-- requests, the listing of users, the downloads of NApps and the configuration.
pub mod Prelude
pub mod Errors
pub mod Dict
pub mod TagRanges
pub mod Entity
pub mod Clock
pub mod Switch
pub mod Interface
pub mod Link
pub mod DeadLetter
pub mod QueueMonitor
pub mod ApiServer
pub mod Auth
pub mod Buffers
pub mod Connection
pub mod Controller
pub mod Events
pub mod Ids
pub mod NappBase
pub mod NappsManager
pub mod Pacing
pub mod Table
