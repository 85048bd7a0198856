-- ===== src/Lib.antt =====
-- den-remux turns a remote film into fMP4 HLS. This library models the parts of it that decide what
-- bytes a client gets, what is read out of a Matroska or an MP4 file, how the init segment of a Dolby
-- Vision copy is rewritten, what a player is sent of it, and what is remembered of a release.
--
-- The parts, and the files that model them:
--   * Http: a request for a segment, src/session.rs. Http/Range.antt has `wanted_range` (and `range` of
--     src/source.rs, the loopback door's), Http/Parts.antt `slice_parts` and `files_body` of
--     src/httputil.rs, Http/Response.antt `media_response`, which calls both, Http/ContentRange.antt
--     `content_range` of src/httputil.rs. A `match` on several values is a function by clauses
--     (`bounds`), and a chain of early returns is one function per stage (`spec_of`, `span_of`).
--     Http/Files.antt has `seg_index`, `sub_file` and `is_session_file`.
--   * Matroska: src/probe/mkv.rs. Matroska/Element.antt has `header`, `children` and `child`, and
--     Matroska/Index.antt `parse_seek_head`, `parse_cues`, `block_frame`, `rpu_nal` and
--     `first_in_blocks`. Matroska/Encode.antt and Matroska/Read.antt write elements as RFC 8794 has
--     them, which is what the parsers are measured against.
--   * State: src/state.rs. State/Opened.antt is `OpenedCache`, State/Known.antt `KnownReleases`,
--     State/Unplayable.antt `Unplayable`. An operation takes the state and returns the next one.
--   * Init: src/job.rs, `add_dovi_record` and what it calls. Its refusals are the constructors of
--     `Refusal`, and `stuck`, for a loop without fuel.
--   * Mp4: src/probe/mp4.rs, `box_header`, `boxes`, `child` and `sync_sample_bytes`.
--   * Codec: the headers that src/probe/mod.rs reads. Codec/Bits.antt is its bit reader, of which a walk
--     over a header is a program; Codec/Av1.antt has `sequence_colour`, Codec/Hevc.antt `sps_colour` and
--     the walk over an `hvcC` record, Codec/Names.antt the RFC 6381 names of codecs, and
--     Codec/Names/Read.antt `profile_level` and the other readers of such a name. Codec/Records.antt has
--     the VP9 records and `vp9_track`, `idr_keyframe` and `dovi_config`.
--   * Play: what a player takes of a release, src/session.rs. Play/Playable.antt has `Playable`, `takes`
--     and the Dolby Vision that is kept, Play/Fit.antt `fit`, Play/Audio.antt `audio_plan`, and
--     Play/Link.antt the share of the uplink. It reads codec names with Codec.
--   * Scan: the scan queue of src/segments.rs. Scan/Queue.antt has an operation for each critical section,
--     which takes `Inner` and returns the next one; Scan/Queue/Bounds.antt makes them a step relation, and
--     Scan/Queue/Order.antt sequences of events. Scan/Match.antt is the search for what two fingerprints
--     share, and Scan/Match/Episodes.antt `match_episodes`: a slice or a subtraction that would panic is
--     `none`.
--   * Lang: src/lang.rs, the table of languages and `pick_audio`.
--   * Auth: src/auth.rs, the signed message, the signatures of URLs and the credentials of browsers.
--   * Config: src/config.rs, the parsers of its values, and `local`.
--   * Playlist: src/playlist.rs, where the segments are cut, and in Playlist/Rates.antt their bytes and what
--     a link must carry of them. Redact: src/redact.rs, the path and the request id that are logged.
--   * Subs: Subs/Plan.antt is `plan` of src/subs.rs, and what ranks the tracks of a language.
--   * Sessions: Sessions/Admission.antt has `reserve` of src/state.rs, the slot that it gives, and what ends a
--     session or a replacement; Sessions/Admission/Steps.antt makes these a step relation. Sessions/Starts.antt
--     has `admit`. Sessions/Gops.antt is `ready_chain` of src/session.rs and what looks up a segment, and
--     Sessions/Producer.antt the producer of a session, `ensure_job` and `gate`; Sessions/Producer/Scratch.antt
--     has `refresh` and `prune`. What stands under a lock is a record, what ffmpeg wrote is an argument, and an
--     index out of range is `none`.
--   * Prelude, Text and Bytes: lists, results, the `str` methods and the big-endian integers that the
--     parts share. A byte is a number below 256, and a text the list of its codes.
--
-- A `usize` or `u64` is a natural number: additions that the source checks are checked against 2^64
-- (`checked_add`), its saturating subtractions are `-`, and its casts to fewer bits are written out as
-- remainders. Loops that advance through bytes run on fuel, which is the number of those bytes: each
-- round passes over one byte at least, and a box or an element over more.
--
-- Files that the operating system keeps are a parameter (`FileOps`): what a file still gives from its
-- position on, and a seek that may fail. What a probe found is a parameter of the caches. The clock is
-- an argument. `f64` is a parameter (`Floats`) without a law, and so are HMAC, SHA-256 and base64
-- (`Crypto`).
--
-- Not modelled: sockets, processes and timers; the JSON that is read and written, and the
-- environment; the sample times of an MP4, the text of the playlists, the
-- results of scans that are stored, the waits for a permit and the handlers of requests; header values of a reply that
-- never vary.

pub mod Prelude
pub mod Text
pub mod Http
pub mod Bytes
pub mod Matroska
pub mod State
pub mod Init
pub mod Mp4
pub mod Codec
pub mod Scan
pub mod Play
pub mod Lang
pub mod Auth
pub mod Config
pub mod Redact
pub mod Playlist
pub mod Sessions
pub mod Subs
