-- ===== src/Strings/Ops.antt =====
-- string_type.cpp: `generateOp` and the table of operations that it chooses from.
use fans.Random.{Source}
use fans.Base.{List, [], ◌∷◌}
use fans.Base.Text.{Text, codes}
use fans.Exec.{Exec}
use fans.Strings.{pick, i32_index}

-- static vector<string> sOpToString, with the strings that its entries name
unfoldable pub op_strings : List Text
op_strings =
    codes "android:coarse_location"
    ∷ codes "android:fine_location"
    ∷ codes "android:gps"
    ∷ codes "android:vibrate"
    ∷ codes "android:read_contacts"
    ∷ codes "android:write_contacts"
    ∷ codes "android:read_call_log"
    ∷ codes "android:write_call_log"
    ∷ codes "android:read_calendar"
    ∷ codes "android:write_calendar"
    ∷ codes "android:wifi_scan"
    ∷ codes "android:post_notification"
    ∷ codes "android:neighboring_cells"
    ∷ codes "android:call_phone"
    ∷ codes "android:read_sms"
    ∷ codes "android:write_sms"
    ∷ codes "android:receive_sms"
    ∷ codes "android:receive_emergency_broadcast"
    ∷ codes "android:receive_mms"
    ∷ codes "android:receive_wap_push"
    ∷ codes "android:send_sms"
    ∷ codes "android:read_icc_sms"
    ∷ codes "android:write_icc_sms"
    ∷ codes "android:write_settings"
    ∷ codes "android:system_alert_window"
    ∷ codes "android:access_notifications"
    ∷ codes "android:camera"
    ∷ codes "android:record_audio"
    ∷ codes "android:play_audio"
    ∷ codes "android:read_clipboard"
    ∷ codes "android:write_clipboard"
    ∷ codes "android:take_media_buttons"
    ∷ codes "android:take_audio_focus"
    ∷ codes "android:audio_master_volume"
    ∷ codes "android:audio_voice_volume"
    ∷ codes "android:audio_ring_volume"
    ∷ codes "android:audio_media_volume"
    ∷ codes "android:audio_alarm_volume"
    ∷ codes "android:audio_notification_volume"
    ∷ codes "android:audio_bluetooth_volume"
    ∷ codes "android:wake_lock"
    ∷ codes "android:monitor_location"
    ∷ codes "android:monitor_location_high_power"
    ∷ codes "android:get_usage_stats"
    ∷ codes "android:mute_microphone"
    ∷ codes "android:toast_window"
    ∷ codes "android:project_media"
    ∷ codes "android:activate_vpn"
    ∷ codes "android:write_wallpaper"
    ∷ codes "android:assist_structure"
    ∷ codes "android:assist_screenshot"
    ∷ codes "android:read_phone_state"
    ∷ codes "android:add_voicemail"
    ∷ codes "android:use_sip"
    ∷ codes "android:process_outgoing_calls"
    ∷ codes "android:use_fingerprint"
    ∷ codes "android:body_sensors"
    ∷ codes "android:read_cell_broadcasts"
    ∷ codes "android:mock_location"
    ∷ codes "android:read_external_storage"
    ∷ codes "android:write_external_storage"
    ∷ codes "android:turn_screen_on"
    ∷ codes "android:get_accounts"
    ∷ codes "android:run_in_background"
    ∷ codes "android:audio_accessibility_volume"
    ∷ codes "android:read_phone_numbers"
    ∷ codes "android:request_install_packages"
    ∷ codes "android:picture_in_picture"
    ∷ codes "android:instant_app_start_foreground"
    ∷ codes "android:answer_phone_calls"
    ∷ codes "android:run_any_in_background"
    ∷ codes "android:change_wifi_state"
    ∷ codes "android:request_delete_packages"
    ∷ codes "android:bind_accessibility_service"
    ∷ codes "android:accept_handover"
    ∷ codes "android:manage_ipsec_tunnels"
    ∷ codes "android:start_foreground"
    ∷ codes "android:bluetooth_scan"
    ∷ []

-- string generateOp()
abbrev pub generate_op : Exec Source Text
generate_op = pick i32_index op_strings
