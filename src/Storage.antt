-- ===== src/Storage.antt =====
-- irrd/storage/database_handler.py and models.py: the database handler, its status tracker and its tracker of changed objects. This
-- file has the data that they exchange with PostgreSQL.
pub mod Sql
pub mod Tracker
pub mod Handler
pub mod Operations
pub mod Statuses
pub mod Commands
pub mod Holds
pub mod Readonly
pub mod Buffer
pub mod Reachable
pub mod Refine
pub mod Journal
pub mod Visibility
pub mod Seen
pub mod Known
pub mod Ranges
pub mod Chunks
pub mod Revalidate
pub mod Concrete
mod Examples
use irrd.Base.{
  ℕ, String, Bool, true, false, ◌&&◌, Option, none, some, List, [], ◌∷◌, ◌++◌, all, ◌-◌, ◌+◌,
}
use irrd.Rpki.{RpkiStatus, is_visible as rpki_is_visible}
use irrd.ScopeFilter.{ScopeFilterStatus, is_visible as scope_is_visible}
use irrd.RoutePref.Radix.{RoutePreferenceStatus}
use irrd.RoutePref.{is_visible as preference_is_visible}
use irrd.NrtmOperation.{DatabaseOperation}
use irrd.Nrtm4.Status.{ClientStatus}

pub data JournalEntryOrigin : Type 0 where
  unknown mirror synthetic_nrtm pseudo_irr auth_change : JournalEntryOrigin
  rpki_status scope_filter suspension route_preference : JournalEntryOrigin

unfoldable pub object_is_visible : RpkiStatus → ScopeFilterStatus → RoutePreferenceStatus → Bool
object_is_visible rpki scope preference =
    rpki_is_visible rpki && scope_is_visible scope && preference_is_visible preference

-- An address of IPy: its text and its number
pub record Address : Type 0 where
  pub text : String
  pub int : ℕ

-- What the handler reads of an `RPSLObject`
pub record RpslObject : Type 0 where
  pub pk : String
  pub source : String
  pub rpsl_object_class : String
  pub mnt_by : List String
  pub render_rpsl_text : ℕ → String
  pub ip_version : Option ℕ
  pub ip_first : Option Address
  pub ip_last : Option Address
  pub prefix : Option String
  pub prefix_length : Option ℕ
  pub asn_first : Option ℕ
  pub asn_last : Option ℕ
  pub rpki : RpkiStatus
  pub scopefilter : ScopeFilterStatus
  pub preference : RoutePreferenceStatus

-- `object_dict`: the columns of a row of `rpsl_objects` that the handler sets. Of `parsed_data` it has the
-- maintainers; a time is a number.
pub record ObjectDict : Type 0 where
  pub rpsl_pk : String
  pub source : String
  pub object_class : String
  pub mnt_by : List String
  pub object_text : String
  pub ip_version : Option ℕ
  pub ip_first : Option String
  pub ip_last : Option String
  pub ip_size : Option ℕ
  pub prefix : Option String
  pub prefix_length : Option ℕ
  pub asn_first : Option ℕ
  pub asn_last : Option ℕ
  pub rpki : RpkiStatus
  pub scopefilter : ScopeFilterStatus
  pub preference : RoutePreferenceStatus
  pub updated : ℕ
  pub created : Option ℕ

-- The constraint of `rpsl_objects`, which has one row for each of these
abbrev pub CompositeKey : Type 0
CompositeKey = String × (String × String)

abbrev pub composite_key : ObjectDict → CompositeKey
composite_key d = (d.rpsl_pk, (d.source, d.object_class))

-- A row that a deletion returns: its UUID, what it was written with, and the times of its columns
pub record Removed : Type 0 where
  pub row : ObjectDict
  pub row_created : ℕ
  pub row_updated : ℕ

pub record JournalEntry : Type 0 where
  pub rpsl_pk : String
  pub source : String
  pub operation : DatabaseOperation
  pub object_class : String
  pub object_text : String
  pub serial_nrtm : Option ℕ
  pub origin : JournalEntryOrigin

pub record SuspendedObject : Type 0 where
  pub rpsl_pk : String
  pub source : String
  pub object_class : String
  pub object_text : String
  pub mntners : List String
  pub original_created : ℕ
  pub original_updated : ℕ

pub record Roa : Type 0 where
  pub ip_version : ℕ
  pub prefix : String
  pub asn : ℕ
  pub max_length : ℕ
  pub trust_anchor : String

pub record ServerStatus : Type 0 where
  pub session_id : Option String
  pub version : Option ℕ
  pub last_update_notification_file_update : Option ℕ
  pub last_snapshot_version : Option ℕ
  pub last_snapshot_global_serial : Option ℕ
  pub last_snapshot_filename : Option String
  pub last_snapshot_timestamp : Option ℕ
  pub last_snapshot_hash : Option String
  pub previous_deltas : List String

-- What is read of a row of `database_status`
pub record StatusRow : Type 0 where
  pub serial_oldest_seen : Option ℕ
  pub serial_newest_seen : Option ℕ
  pub synchronised_serials : Bool

-- What ends an operation with an exception: a write on a handler that only reads, a violated constraint,
-- more than one row for a key, no row, or a row without an attribute
pub data Fault : Type 0 where
  readonly_handler integrity_error multiple_rows no_such_object missing_attribute : Fault

pub data Result {ℓ} (A : Type ℓ) : Type ℓ where
  ok : A → Result A
  fault : Fault → Result A

infixl 5 ◌>>=◌
abbrev pub ◌>>=◌ : {A B : Type 0} → Result A → (A → Result B) → Result B
ok a >>= f = f a
fault e >>= f = fault e
