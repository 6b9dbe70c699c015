-- ===== src/Client/Controller/Sends.antt =====
-- rubetek/client/controller/impl/controller.cpp: what only goes to the controller.
use rubetek_ios_cpp_releases.Prelude.{ℕ}
use rubetek_ios_cpp_releases.Client.Controller.{
  Text, Message, password, project, device_properties, module_command, project_alias,
  notification_id, remove_client, Call, transmit,
}

unfoldable pub send_password : Text → Call (Unit {0})
unfolding transmit
send_password pwd = transmit (password pwd)

unfoldable pub send_project : Text → Call (Unit {0})
unfolding transmit
send_project prj = transmit (project prj)

unfoldable pub send_property : Text → Call (Unit {0})
unfolding transmit
send_property list = transmit (device_properties list)

unfoldable pub send_module_command : Text → Call (Unit {0})
unfolding transmit
send_module_command cmd = transmit (module_command cmd)

unfoldable pub send_project_alias : Text → Call (Unit {0})
unfolding transmit
send_project_alias alias = transmit (project_alias alias)

unfoldable pub send_notification_id : Text → Call (Unit {0})
unfolding transmit
send_notification_id id = transmit (notification_id id)

unfoldable pub send_refresh : Call (Unit {0})
unfolding transmit
send_refresh = transmit Message.refresh

unfoldable pub send_remove_client : ℕ → Call (Unit {0})
unfolding transmit
send_remove_client id = transmit (remove_client id)
