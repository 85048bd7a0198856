-- ===== src/Matroska/Ids.antt =====
-- The element ids of src/probe/mkv.rs, under the names that it gives them.
use den_remux.Prelude.{ℕ}

abbrev pub ebml : ℕ
ebml = 0x1A45DFA3

abbrev pub segment : ℕ
segment = 0x18538067

abbrev pub seek_head : ℕ
seek_head = 0x114D9B74

abbrev pub seek : ℕ
seek = 0x4DBB

abbrev pub seek_id : ℕ
seek_id = 0x53AB

abbrev pub seek_position : ℕ
seek_position = 0x53AC

abbrev pub info : ℕ
info = 0x1549A966

abbrev pub timestamp_scale : ℕ
timestamp_scale = 0x2AD7B1

abbrev pub duration : ℕ
duration = 0x4489

abbrev pub tracks : ℕ
tracks = 0x1654AE6B

abbrev pub track_entry : ℕ
track_entry = 0xAE

abbrev pub track_number : ℕ
track_number = 0xD7

abbrev pub track_uid : ℕ
track_uid = 0x73C5

abbrev pub tags : ℕ
tags = 0x1254C367

abbrev pub tag : ℕ
tag = 0x7373

abbrev pub targets : ℕ
targets = 0x63C0

abbrev pub tag_track_uid : ℕ
tag_track_uid = 0x63C5

abbrev pub simple_tag : ℕ
simple_tag = 0x67C8

abbrev pub tag_name : ℕ
tag_name = 0x45A3

abbrev pub tag_string : ℕ
tag_string = 0x4487

abbrev pub track_type : ℕ
track_type = 0x83

abbrev pub codec_id : ℕ
codec_id = 0x86

abbrev pub codec_private : ℕ
codec_private = 0x63A2

abbrev pub default_duration : ℕ
default_duration = 0x23E383

abbrev pub language : ℕ
language = 0x22B59C

abbrev pub language_bcp47 : ℕ
language_bcp47 = 0x22B59D

abbrev pub name : ℕ
name = 0x536E

abbrev pub flag_default : ℕ
flag_default = 0x88

abbrev pub flag_commentary : ℕ
flag_commentary = 0x55AF

abbrev pub flag_forced : ℕ
flag_forced = 0x55AA

abbrev pub flag_hearing_impaired : ℕ
flag_hearing_impaired = 0x55AB

abbrev pub video : ℕ
video = 0xE0

abbrev pub pixel_width : ℕ
pixel_width = 0xB0

abbrev pub pixel_height : ℕ
pixel_height = 0xBA

abbrev pub colour : ℕ
colour = 0x55B0

abbrev pub transfer_characteristics : ℕ
transfer_characteristics = 0x55BA

abbrev pub primaries : ℕ
primaries = 0x55BB

abbrev pub matrix_coefficients : ℕ
matrix_coefficients = 0x55B1

abbrev pub range : ℕ
range = 0x55B9

abbrev pub bits_per_channel : ℕ
bits_per_channel = 0x55B2

abbrev pub audio : ℕ
audio = 0xE1

abbrev pub channels : ℕ
channels = 0x9F

abbrev pub block_addition_mapping : ℕ
block_addition_mapping = 0x41E4

abbrev pub block_add_id_type : ℕ
block_add_id_type = 0x41E7

abbrev pub block_add_id_extra_data : ℕ
block_add_id_extra_data = 0x41ED

abbrev pub cues : ℕ
cues = 0x1C53BB6B

abbrev pub cue_point : ℕ
cue_point = 0xBB

abbrev pub cue_time : ℕ
cue_time = 0xB3

abbrev pub cue_track_positions : ℕ
cue_track_positions = 0xB7

abbrev pub cue_track : ℕ
cue_track = 0xF7

abbrev pub cue_cluster_position : ℕ
cue_cluster_position = 0xF1

abbrev pub cluster : ℕ
cluster = 0x1F43B675

abbrev pub simple_block : ℕ
simple_block = 0xA3

abbrev pub block_group : ℕ
block_group = 0xA0

abbrev pub block : ℕ
block = 0xA1
