-- ===== src/Framework/Motor.antt =====
-- framework/KinectMotor.h and KinectMotor.cpp: the motor of the camera, over the USB library of
-- OpenNI, which is a parameter. What is printed on the way is not modelled.
pub mod Angle
use footscreen.Base.{ℕ, ◌+◌, ◌-◌, ◌*◌, ◌/◌, Bool, true, false, not, ◌&&◌, ltb, ◌==◌, if◌then◌else◌}
use footscreen.Base.Int.{ℤ, pos, sub_ℕ, ◌*ℤ◌}
use footscreen.Framework.{
  Result, done, thrown, ◌then◌, Description, usb_could_not_be_initialized, no_kinect_motor_found,
  could_not_open_connection, could_not_initialize_motor, could_not_move_motor, could_not_set_led,
  could_not_retrieve_information, could_not_shutdown_motor,
}

-- The library: its constants, and its functions with the state `W` of the bus. `receive_control`
-- fills a buffer of ten bytes.
pub record Usb (W : Type 0) : Type 0 where
  pub status_ok : ℕ
  pub usb_already_init : ℕ
  pub usb_device_not_found : ℕ
  pub usb_device_not_valid : ℕ
  pub device_not_connected : ℕ
  pub control_type_vendor : ℕ
  pub init : W → ℕ × W
  -- The status and the number of devices.
  pub enumerate_devices : W → ℕ × ℕ × W
  pub open_first_device : W → ℕ × W
  -- The type of the control, the request, the value and the index.
  pub send_control : ℕ → ℕ → ℤ → ℕ → W → ℕ × W
  pub receive_control : ℕ → ℕ → ℕ → ℕ → W → ℕ × (ℕ → ℕ) × W
  pub close_device : W → ℕ × W

pub data MotorStatus : Type 0 where
  motor_stopped motor_limit motor_moving motor_unknown : MotorStatus

-- What `getInformation` returns by reference.
pub record Information : Type 0 where
  pub angle : ℤ
  pub motor_status : MotorStatus
  pub x : ℕ
  pub y : ℕ
  pub z : ℕ

-- A byte as an angle: `-0.5 * (255 - b)` is rounded to zero.
unfoldable pub angle_of : ℕ → ℤ
angle_of b = if ltb 128 b then sub_ℕ 0 ((255 - b) / 2) else pos (b / 2)

unfoldable pub status_of : ℕ → MotorStatus
status_of b =
    if b == 0
    then motor_stopped
    else if b == 1
    then motor_limit
    else if b == 4
    then motor_moving
    else motor_unknown

module _ {W : Type 0} (u : Usb W) where
  open u use {
    status_ok, usb_already_init, usb_device_not_found, usb_device_not_valid, device_not_connected,
    control_type_vendor, init, enumerate_devices, open_first_device, send_control, receive_control,
    close_device,
  }

  -- A call whose status is not `XN_STATUS_OK` throws.
  unfoldable pub checked : Description → ℕ × W → Result W
  checked d (status, w) =
      if status == status_ok then done w else thrown (record { description = d; status = status })

  unfoldable pub new_kinect_motor : W → Result W
  unfolding checked
  new_kinect_motor w =
      let (status, w1) = init w in
      (if not (status == status_ok) && not (status == usb_already_init)
        then thrown (record { description = usb_could_not_be_initialized; status = status })
        else done w1)
      then λ w2.
          let (found, count, w3) = enumerate_devices w2 in
          checked no_kinect_motor_found (found, w3) then λ w4.
          (if ltb count 1
            then thrown
                (record { description = no_kinect_motor_found; status = usb_device_not_found })
            else done w4)
          then λ w5. checked could_not_open_connection (open_first_device w5) then λ w6.
              checked could_not_initialize_motor (send_control 192 16 (pos 0) 0 w6) then λ w7.
              checked could_not_initialize_motor (send_control control_type_vendor 6 (pos 1) 0 w7)

  unfoldable pub tilt_to : ℤ → W → Result W
  unfolding checked
  tilt_to angle w =
      checked could_not_move_motor (send_control control_type_vendor 49 (pos 2 *ℤ angle) 0 w)

  -- `led` is a `LED_STATUS`.
  unfoldable pub set_led : ℕ → W → Result W
  unfolding checked
  set_led led w = checked could_not_set_led (send_control control_type_vendor 6 (pos led) 0 w)

  unfoldable pub get_information : W → Result (Information × W)
  unfolding checked angle_of status_of
  get_information w =
      let (status, data_, w') = receive_control control_type_vendor 50 0 0 w in
      checked could_not_retrieve_information (status, w') then λ w''. done (
        record {
          angle = angle_of (data_ 8);
          motor_status = status_of (data_ 9);
          x = data_ 2 * 256 + data_ 3;
          y = data_ 4 * 256 + data_ 5;
          z = data_ 6 * 256 + data_ 7;
        },
        w'',
      )

  unfoldable pub get_angle : W → Result (ℤ × W)
  unfolding get_information
  get_angle w = get_information w then λ (i, w'). done (i.angle, w')

  unfoldable pub get_motor_status : W → Result (MotorStatus × W)
  unfolding get_information
  get_motor_status w = get_information w then λ (i, w'). done (i.motor_status, w')

  unfoldable pub get_accelerometer : W → Result ((ℕ × ℕ × ℕ) × W)
  unfolding get_information
  get_accelerometer w = get_information w then λ (i, w'). done ((i.x, i.y, i.z), w')

  -- `~KinectMotor`.
  unfoldable pub shutdown_motor : W → Result W
  shutdown_motor w =
      let (status, w') = close_device w in
      if not (status == status_ok)
        && not (status == usb_device_not_valid)
        && not (status == device_not_connected)
      then thrown (record { description = could_not_shutdown_motor; status = status })
      else done w'
