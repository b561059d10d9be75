-- ===== src/Tests/DecoderTests.antt =====
-- internal/decoder at concrete inputs.
use mavlink_doctor.Common.{◌≡◌, refl, Bytes, Bytes-Eq, List, [], ◌∷◌, any, true, codes}
use mavlink_doctor.Common.Int.{pos}
use mavlink_doctor.Gomavlib.{heartbeat, mount_orientation, gimbal_manager_information, other}
use mavlink_doctor.Decoder.FrameInspector.{find_magic_offset, find_magic_from}
use mavlink_doctor.Decoder.Gimbal.{
  no_evidence, contains, seen_list, check_gimbal_message, inspect, observe,
}
use mavlink_doctor.Decoder.Magic.{FirstMagic, find_magic_offset-FirstMagic}
use mavlink_doctor.Decoder.Evidence.{
  Received, shows_gimbal, is_listed_as, IsUnique, gather, gather_evidence,
}
use mavlink_doctor.Tests.Data.{no_text, copter}

abbrev buffer : Bytes
buffer = 0x55 ∷ 0x00 ∷ 0xFD ∷ 0x09 ∷ 0xFE ∷ []

find_magic_offset_run : find_magic_offset buffer ≡ pos 2
unfolding find_magic_offset find_magic_from
find_magic_offset_run = refl

find_magic_offset_example : FirstMagic 0 buffer (find_magic_offset buffer)
find_magic_offset_example = find_magic_offset-FirstMagic buffer

abbrev seen_messages : List Received
seen_messages =
    record { message = copter; system_id = 1; component_id = 1 }
    ∷ record { message = mount_orientation 0 0 0; system_id = 1; component_id = 1 }
    ∷ record { message = heartbeat 26 8 4; system_id = 1; component_id = 154 }
    ∷ record { message = mount_orientation 0 0 1; system_id = 1; component_id = 1 }
    ∷ []

gather_evidence_example :
    ((gather no_text no_evidence seen_messages).observed ≡ any shows_gimbal seen_messages)
    × ((s : Bytes)
        → contains s (seen_list (gather no_text no_evidence seen_messages).messages_seen)
          ≡ any (is_listed_as s) seen_messages)
    × IsUnique (seen_list (gather no_text no_evidence seen_messages).messages_seen)
gather_evidence_example = gather_evidence no_text seen_messages

-- A message that is none of a gimbal, from component 154, and the gimbal manager's information each leave
-- a gimbal observed.
abbrev unlike_gimbal : List Received
unlike_gimbal =
    record {
      message = other (codes "*common.MessageStatustext");
      system_id = 1;
      component_id = 154;
    }
    ∷ []

abbrev manager_only : List Received
manager_only =
    record { message = gimbal_manager_information 0; system_id = 1; component_id = 1 } ∷ []

observed_otherwise :
    ((gather no_text no_evidence unlike_gimbal).observed ≡ true)
    × ((gather no_text no_evidence manager_only).observed ≡ true)
unfolding gather check_gimbal_message inspect observe
observed_otherwise = (refl, refl)
