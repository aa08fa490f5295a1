-- ===== src/Receiver/Metadata.antt =====
-- The track metadata that a receiver shows: the messages of pkg/protocol/messages.go and their
-- merging in pkg/sendspin/receiver.go. Times are the server clock's, in µs. The clock's reading is
-- an argument of the steps that look at it.
pub mod Pending
pub mod Order
use sendspin_go.Prelude.{
  ℕ, zero, suc, Bool, true, false, ◌||◌, List, [], ◌∷◌, ◌++◌, Option, none, some, if◌then◌else◌,
  length, get_elem?, drop,
}
use sendspin_go.Prelude.Int.{ℤ, pos, leb_ℤ, ltb_ℤ, quot_ℤ}
use sendspin_go.Prelude.Text.{String, str_eq}
use sendspin_go.Prelude.Search.{search}

pub record ProgressState : Type 0 where
  pub track_progress : ℤ
  pub track_duration : ℤ
  pub playback_speed : ℤ

-- `present_keys` is none in a message that the program has built itself.
pub record MetadataState : Type 0 where
  pub timestamp : ℤ
  pub title : Option String
  pub artist : Option String
  pub album_artist : Option String
  pub album : Option String
  pub artwork_url : Option String
  pub year : Option ℤ
  pub track : Option ℤ
  pub progress : Option ProgressState
  pub repeat : Option String
  pub shuffle : Option Bool
  pub present_keys : Option (List String)

unfoldable pub listed : List String → String → Bool
listed [] key = false
listed (k ∷ keys) key = str_eq k key || listed keys key

unfoldable pub has_field : MetadataState → String → Bool
unfolding listed
has_field m key = elim m.present_keys [ none ↦ true | some keys ↦ listed keys key ]

-- The merged metadata that the application sees; `duration` is in seconds.
pub record Metadata : Type 0 where
  pub title : String
  pub artist : String
  pub album : String
  pub album_artist : String
  pub artwork_url : String
  pub track : ℤ
  pub year : ℤ
  pub duration : ℤ
  pub repeat : String
  pub shuffle : Bool

-- What applyMetadataLocked does to one field: `value` is the pointer, and `cleared` what null sets.
unfoldable pub merge {ℓ} : {A : Type ℓ} → Bool → Option A → A → A → A
merge present value cleared prior =
    if present then elim value [ none ↦ cleared | some v ↦ v ] else prior

unfoldable pub seconds : Option ProgressState → Option ℤ
seconds none = none
seconds (some p) = some (quot_ℤ p.track_duration 1000)

unfoldable pub merged : Metadata → MetadataState → Metadata
unfolding has_field merge seconds
merged d m = record {
  title = merge (has_field m "title") m.title "" d.title;
  artist = merge (has_field m "artist") m.artist "" d.artist;
  album = merge (has_field m "album") m.album "" d.album;
  album_artist = merge (has_field m "album_artist") m.album_artist "" d.album_artist;
  artwork_url = merge (has_field m "artwork_url") m.artwork_url "" d.artwork_url;
  track = merge (has_field m "track") m.track (pos 0) d.track;
  year = merge (has_field m "year") m.year (pos 0) d.year;
  duration = merge (has_field m "progress") (seconds m.progress) (pos 0) d.duration;
  repeat = merge (has_field m "repeat") m.repeat "" d.repeat;
  shuffle = merge (has_field m "shuffle") m.shuffle false d.shuffle;
}

-- The receiver's fields under metadataMu, with what OnMetadata has been called with so far.
pub record Display : Type 0 where
  pub on_metadata : Bool
  pub merged_metadata : Metadata
  pub pending_metadata : List MetadataState
  pub shown : List Metadata

unfoldable pub show : Display → Metadata → Display
show r d = record r {
  merged_metadata = d;
  shown = if r.on_metadata then r.shown ++ d ∷ [] else r.shown;
}

-- applyMetadataLocked
unfoldable pub apply_metadata : Display → MetadataState → Display
unfolding merged show
apply_metadata r m = show r (merged r.merged_metadata m)

-- applyController
unfoldable pub apply_controller : Display → String → Bool → Display
unfolding show
apply_controller r repeat shuffle =
    show r (record r.merged_metadata { repeat = repeat; shuffle = shuffle })

-- `append`, `copy` and the write at `idx`: the later entries move up by one.
unfoldable pub insert_at : List MetadataState → ℕ → MetadataState → List MetadataState
insert_at ms zero m = m ∷ ms
insert_at [] (suc i) m = m ∷ []
insert_at (x ∷ ms) (suc i) m = x ∷ insert_at ms i m

-- The test of sort.Search, false past the end, where it is not asked.
unfoldable pub not_before : List MetadataState → ℤ → ℕ → Bool
not_before ms timestamp i = elim (get_elem? ms i) [
  | none ↦ false
  | some x ↦ leb_ℤ timestamp x.timestamp
]

unfoldable pub enqueue_metadata : Display → MetadataState → ℤ → Display
unfolding apply_metadata insert_at not_before
enqueue_metadata r m now =
    if leb_ℤ m.timestamp (pos 0) || leb_ℤ m.timestamp now
    then apply_metadata r m
    else let idx = search (length r.pending_metadata) (not_before r.pending_metadata m.timestamp) in
      record r { pending_metadata = insert_at r.pending_metadata idx m }

-- The loop of drainPendingMetadata over the updates left, with the number applied.
unfoldable pub drain_loop : List MetadataState → Display → ℤ → ℕ → Display × ℕ
unfolding apply_metadata
drain_loop [] r now applied = (r, applied)
drain_loop (m ∷ ms) r now applied = elim (ltb_ℤ now m.timestamp) [
  | true ↦ (r, applied)
  | false ↦ drain_loop ms (apply_metadata r m) now (suc applied)
]

-- drainPendingMetadata; dropping no entries changes nothing.
unfoldable pub drain_pending_metadata : Display → ℤ → Display
unfolding drain_loop
drain_pending_metadata r now =
    let (r', applied) = drain_loop r.pending_metadata r now 0 in
    record r' { pending_metadata = drop applied r'.pending_metadata }
