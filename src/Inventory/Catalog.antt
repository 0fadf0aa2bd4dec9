-- ===== src/Inventory/Catalog.antt =====
-- src/network_change_delivery/profile_inventory.py: `PROFILED_POPULATION_CATALOG`.
use network_change_delivery.Base.{[], ◌∷◌}
use network_change_delivery.Profile.{
  cat8000v_iosxe, iosv_159_3_m12, iosvl2_2020, vjunos_router, iosxe, ios, junos, core, edge,
  transit, access,
}
use network_change_delivery.Inventory.{Declaration}

abbrev pub managed_population : Declaration
managed_population =
    record {
      device_identity = "netbox:dcim.device:1";
      logical_name = "core-02";
      operational_role = core;
      platform_slug = "cisco-ios-xe";
      device_type_slug = "c8000v";
      network_os = iosxe;
      automation_profile_id = cat8000v_iosxe;
    }
    ∷ record {
      device_identity = "netbox:dcim.device:2";
      logical_name = "edge-junos-01";
      operational_role = edge;
      platform_slug = "juniper-junos";
      device_type_slug = "vjunos-router-lab";
      network_os = junos;
      automation_profile_id = vjunos_router;
    }
    ∷ record {
      device_identity = "netbox:dcim.device:8";
      logical_name = "transit-ios-01";
      operational_role = transit;
      platform_slug = "cisco-ios";
      device_type_slug = "iosv-159-3-m12";
      network_os = ios;
      automation_profile_id = iosv_159_3_m12;
    }
    ∷ record {
      device_identity = "netbox:dcim.device:9";
      logical_name = "access-sw-01";
      operational_role = access;
      platform_slug = "cisco-ios";
      device_type_slug = "iosvl2-2020";
      network_os = ios;
      automation_profile_id = iosvl2_2020;
    }
    ∷ []
